-- ===== src/Tests/Fetch.antt =====
-- A magnet link whose only tracker names one peer, which sends the metadata of a torrent of one file.
-- In place of SHA-1 the tests cut the metadata to 20 bytes.
use torrent_client.Common.{
  ◌≡◌, refl, true, false, Option, none, some, List, [], ◌∷◌, ◌++◌, arith, Bytes, codes, length,
  replicate,
}
use torrent_client.Peer.Metadata.{get_metadata, supported}
use torrent_client.Peer.Metadata.Replies.{replies}
use torrent_client.Peer.Metadata.Honest.{get_metadata-replies}
use torrent_client.Torrent.{ceil_div}
use torrent_client.Common.Int.{ℤ}
use torrent_client.Common.Outcome.{Outcome, ok}
use torrent_client.Extension.{frame}
use torrent_client.Magnet.{MagnetUri, parse_magnet_uri}
use torrent_client.Magnet.Links.{hex_encode}
use torrent_client.Magnet.Fetch.{get_metadata_from_magnet_uri}
use torrent_client.Magnet.Fetch.Checked.{Genuine, get_metadata_from_magnet_uri-Genuine}
use torrent_client.Peer.{Conn, PeerInfo, PeerConnection, new_peer_connection}
use torrent_client.Tests.Machine.{pad}
use torrent_client.Tests.Storage.{place_of, sample_disk}
use torrent_client.Torrent.Codec.{DecodedInfo}
use torrent_client.Tracker.{AnnounceRequest, TorrentPeer}

abbrev metadata : Bytes
metadata = codes "d6:lengthi5e4:name1:t12:piece lengthi4e6:pieces0:e"

abbrev topic : Bytes
topic = codes "urn:btih:" ++ hex_encode (pad metadata)

-- the query of the link, parsed
abbrev queries : Bytes → Option (List (Bytes × List Bytes))
queries q =
    some ((codes "xt", topic ∷ []) ∷ (codes "tr", codes "udp://tracker:69/announce" ∷ []) ∷ [])

abbrev peer : Conn
peer = record {
  arrived = [];
  arrivals =
      (19
        ∷ (codes "BitTorrent protocol"
            ++ (0 ∷ 0 ∷ 0 ∷ 0 ∷ 0 ∷ 16 ∷ 0 ∷ 0 ∷ (pad metadata ++ replicate 20 5))))
      ∷ frame 0 (codes "d1:md11:ut_metadatai3ee13:metadata_sizei50ee")
      ∷ (0 ∷ 0 ∷ 0 ∷ 1 ∷ 1 ∷ [])
      ∷ []
      ∷ frame 3 (codes "d8:msg_typei1e5:piecei0e10:total_sizei50ee" ++ metadata)
      ∷ [];
  closed = false;
  sent = [];
  faults = λ k. false;
}

abbrev dial : PeerInfo → Option Conn
dial info = some peer

abbrev ask : Bytes → AnnounceRequest → Option (List TorrentPeer)
ask address r = some (record { ip_addr = 3232235777; port = 6881 } ∷ [])

abbrev uri : Bytes
uri = codes "magnet:?link"

abbrev result : Outcome DecodedInfo
result =
    get_metadata_from_magnet_uri pad place_of 10 sample_disk 10 dial ask queries (λ a. true)
      (λ l. l) (replicate 20 1) uri

abbrev torrent : DecodedInfo
torrent = record {
  name = codes "t";
  length = ℤ.pos 5;
  piece_length = ℤ.pos 4;
  pieces = [];
  files = [];
}

result-ok : result ≡ ok torrent
unfolding get_metadata_from_magnet_uri hex_encode
result-ok = refl

get_metadata_from_magnet_uri-Genuine_example :
    (m : MagnetUri) × (parse_magnet_uri queries uri ≡ ok m) × Genuine pad m.info_hash torrent
get_metadata_from_magnet_uri-Genuine_example =
    get_metadata_from_magnet_uri-Genuine pad place_of 10 sample_disk 10 dial ask queries (λ a. true)
      (λ l. l) (replicate 20 1) uri torrent result-ok

-- a connection to a peer that has told the size of the metadata and answers the request for it
abbrev answering : Conn
answering = record peer { arrivals = replies metadata 0 (ceil_div (length metadata) 16384) }

abbrev told : PeerConnection
told =
    let fresh =
      new_peer_connection (record { ipaddr = []; port = [] }) (replicate 20 1) (pad metadata) 1
        (record { bitfield = 192 ∷ []; spare = [] }) in
    record fresh {
      conn = some answering;
      extensions = record (fresh.extensions) {
        supports_extensions = true;
        supported_extensions = (codes "ut_metadata", ℤ.pos 3) ∷ [];
        metadata_size = ℤ.pos (length metadata);
      };
    }

get_metadata-replies_example :
    (pc' : PeerConnection) × (get_metadata place_of 10 sample_disk 2 told
      ≡ ok ((metadata, none), pc'))
unfolding new_peer_connection supported replies
get_metadata-replies_example =
    get_metadata-replies place_of 10 sample_disk metadata told answering (ℤ.pos 3) 1 (λ k. refl)
      (omega arith) refl refl refl refl refl refl refl
