-- ===== src/Tests/Tracker.antt =====
-- An answer of a tracker with two peers.
use torrent_client.Common.{◌≡◌, refl, false, [], ◌∷◌, ◌++◌, arith, codes, replicate}
use torrent_client.Common.Outcome.{ok}
use torrent_client.Magnet.Fetch.{magnet_request}
use torrent_client.Tracker.Connection.{to_peer_info, UdpConn, TrackerConn, connect, announce}
use torrent_client.Tracker.Connection.Exchange.{put_connection, after_request, announce_exchange}
use torrent_client.Peer.Address.{peer_info_from_address}
use torrent_client.Tracker.Connection.Peers.{peer_info_from_address-to_peer_info}
use torrent_client.Tracker.{AnnounceRequest, AnnounceResponse}
use torrent_client.Tracker.Announce.{put_response, ResponseInRange}

abbrev sample_response : AnnounceResponse
sample_response = record {
  action = 1;
  transaction_id = 305419896;
  interval = 1800;
  leechers = 3;
  seeders = 12;
  peers =
      (record { ip_addr = 3232235777; port = 6881 })
      ∷ (record { ip_addr = 167772161; port = 51413 })
      ∷ [];
}

sample_ResponseInRange : ResponseInRange sample_response
sample_ResponseInRange = record {
  action = omega arith;
  transaction_id = omega arith;
  interval = omega arith;
  leechers = omega arith;
  seeders = omega arith;
  peers = (
    record { ip_addr = omega arith; port = omega arith },
    (record { ip_addr = omega arith; port = omega arith }, tt),
  );
}

abbrev socket : UdpConn
socket = record {
  sent = [];
  faults = λ k. false;
  arriving = (put_connection 17 305419896 ++ []) ∷ put_response sample_response ∷ [];
}

abbrev request : AnnounceRequest
request = magnet_request (replicate 20 9)

announce_exchange_example :
    (tc : TrackerConn) × (connect socket 4 ≡ ok tc)
    × (tc.transaction_id ≡ 17)
    × (tc.connection_id ≡ 305419896)
    × (announce tc 99 request
        ≡ ok (
          sample_response,
          record tc { conn = record (after_request tc 99 request) { arriving = [] } },
        ))
announce_exchange_example =
    announce_exchange socket 4 17 305419896 99 [] [] request sample_response refl refl (omega arith)
      (omega arith) (omega arith) sample_ResponseInRange (omega arith)

peer_info_from_address-to_peer_info_example :
    peer_info_from_address (codes "192.168.1.1:6881")
    ≡ ok (record { ipaddr = codes "192.168.1.1"; port = codes "6881" })
unfolding to_peer_info
peer_info_from_address-to_peer_info_example =
    peer_info_from_address-to_peer_info (record { ip_addr = 3232235777; port = 6881 })
