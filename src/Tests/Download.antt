-- ===== src/Tests/Download.antt =====
-- A download of a piece of four bytes, which is one block.
use torrent_client.Common.{◌≡◌, refl, false, Option, some, [], Bytes, codes, length}
use torrent_client.Common.Outcome.{Outcome, ok, Error}
use torrent_client.Peer.{PeerConnection, new_peer_connection, piece_message}
use torrent_client.Peer.Download.{get_piece}
use torrent_client.Peer.Download.Size.{get_piece-IsSized}
use torrent_client.Tests.Storage.{place_of, sample_disk}

-- The peer has sent the block already.
abbrev answered : PeerConnection
answered =
    record (new_peer_connection (record { ipaddr = []; port = [] }) [] [] 1
      (record { bitfield = []; spare = [] })) {
        conn = some (record {
          arrived = piece_message 0 0 (codes "wxyz");
          arrivals = [];
          closed = false;
          sent = [];
          faults = λ k. false;
        });
      }

abbrev result : Outcome ((Bytes × Option Error) × PeerConnection)
result = get_piece place_of 10 sample_disk 5 answered 0 4

abbrev piece_of : Outcome ((Bytes × Option Error) × PeerConnection) → Bytes × PeerConnection
piece_of (ok r) = (r.0.0, r.1)
piece_of _ = ([], answered)

get_piece-IsSized_example : length (piece_of result).0 ≡ 4
unfolding get_piece new_peer_connection
get_piece-IsSized_example =
    get_piece-IsSized place_of 10 sample_disk 5 answered 0 4 (piece_of result).0 (piece_of result).1
      refl
