-- ===== src/Tests/Peer.antt =====
-- A client that serves the torrent of the storage tests, and one that downloads from it.
use torrent_client.Common.{
  ◌≡◌, refl, true, false, none, some, [], ◌∷◌, ◌++◌, arith, if◌then◌else◌, Bytes, codes, length,
  replicate,
}
use torrent_client.Common.Int.{ℤ}
use torrent_client.Peer.Buffered.{parse_messages}
use torrent_client.Peer.Buffered.Agrees.{message, parse_messages-handle_message}
use torrent_client.Peer.Handler.{drop_error}
use torrent_client.Common.Outcome.{◌>>=◌, ok, panic, wrong_info_hash}
use torrent_client.Bencode.Value.{eq_bytes}
use torrent_client.Cache.{new_piece_cache, get_piece, piece_size}
use torrent_client.Cache.Transparent.{Serves, expected, get_piece-Serves}
use torrent_client.Peer.{PeerConnection, Conn, BlockState, request_message, new_peer_connection}
use torrent_client.Peer.Blocks.{Awaits, stored}
use torrent_client.Peer.Exchange.{Serving, replied, block_of, block_exchange}
use torrent_client.Peer.Framing.{read_message-put_uint32, read_message_huge}
use torrent_client.Peer.Handler.{handle_message}
use torrent_client.Peer.Handshake.{get_handshake_message, handle_handshake_response}
use torrent_client.Peer.Handshake.Agreement.{handle_handshake_response-get_handshake_message}
use torrent_client.Peer.Reader.{read_message, await}
use torrent_client.Storage.Layout.{contents, stream}
use torrent_client.Torrent.{get_num_pieces, get_total_length, sum_lengths}
use torrent_client.Wire.{put_uint32}
use torrent_client.Tests.Cache.{sample_info, empty-IsValid}
use torrent_client.Tests.Storage.{place_of, sample_disk, sample_HasFiles, sample_Distinct}

abbrev open_conn : Bytes → Conn
open_conn b = record {
  arrived = [];
  arrivals = b ∷ [];
  closed = false;
  sent = [];
  faults = λ n. false;
}

abbrev fresh : PeerConnection
fresh =
    new_peer_connection (record { ipaddr = codes "10.0.0.1"; port = codes "6881" })
      (codes "-UT2021-abcdefghijkl") (codes "abcdefghijklmnopqrst") 1
      (record { bitfield = 192 ∷ []; spare = [] })

handle_handshake_response-get_handshake_message_example :
    handle_handshake_response fresh (get_handshake_message fresh) ≡ (
      if eq_bytes fresh.info_hash fresh.info_hash
      then (
        record fresh {
          peer_id = fresh.client_peer_id;
          extensions = record (fresh.extensions) { supports_extensions = true };
        },
        none,
      )
      else (fresh, some wrong_info_hash))
unfolding new_peer_connection
handle_handshake_response-get_handshake_message_example =
    handle_handshake_response-get_handshake_message fresh fresh refl refl

abbrev listening : Bytes → PeerConnection
listening b = record fresh { conn = some (open_conn b) }

read_message-put_uint32_example :
    read_message (listening (put_uint32 2 ++ (9 ∷ 8 ∷ 7 ∷ [])))
    ≡ ok (
      (put_uint32 2 ++ (9 ∷ 8 ∷ []), none),
      record (listening (put_uint32 2 ++ (9 ∷ 8 ∷ 7 ∷ []))) {
        conn =
            some
              (record (await (open_conn (put_uint32 2 ++ (9 ∷ 8 ∷ 7 ∷ [])))) { arrived = 7 ∷ [] });
      },
    )
unfolding await
read_message-put_uint32_example =
    read_message-put_uint32 (listening (put_uint32 2 ++ (9 ∷ 8 ∷ 7 ∷ [])))
      (open_conn (put_uint32 2 ++ (9 ∷ 8 ∷ 7 ∷ []))) (9 ∷ 8 ∷ []) (7 ∷ []) refl refl (omega arith)

read_message_huge_example : read_message (listening (put_uint32 4294967294 ++ (5 ∷ []))) ≡ panic
unfolding await
read_message_huge_example =
    read_message_huge (listening (put_uint32 4294967294 ++ (5 ∷ [])))
      (open_conn (put_uint32 4294967294 ++ (5 ∷ []))) 4294967294 (5 ∷ []) refl refl (omega arith)
      (omega arith)

sample-Serves :
    Serves place_of sample_disk
      (new_piece_cache sample_info)
      1
      (get_piece place_of 4 sample_disk (new_piece_cache sample_info) 1)
unfolding new_piece_cache sum_lengths get_total_length get_num_pieces piece_size
sample-Serves =
    get_piece-Serves place_of sample_disk 4 (new_piece_cache sample_info) 1 empty-IsValid tt
      (omega arith) (omega arith) refl (omega arith) (omega arith) sample_Distinct sample_HasFiles

abbrev server : PeerConnection
server = record fresh {
  piece_cache = some (new_piece_cache sample_info);
  conn = some (open_conn []);
}

abbrev client : PeerConnection
client = record fresh {
  request = record {
    piece_index = 1;
    block_size = 16384;
    piece = replicate 4 0;
    blocks_state = BlockState.requested ∷ [];
    blocks_requesting = ℤ.pos 1;
    requesting = true;
  };
}

abbrev server_serving : Serving place_of 4 sample_disk server 1
server_serving = record {
  cache = new_piece_cache sample_info;
  conn = open_conn [];
  has_cache = refl;
  has_conn = refl;
  writes = refl;
  serves = sample-Serves;
}

piece_length : length (expected place_of sample_disk sample_info 1) ≡ 4
unfolding expected stream piece_size get_total_length get_num_pieces sum_lengths contents
piece_length = refl

client-Awaits :
    Awaits client 1 (block_of place_of 4 sample_disk (new_piece_cache sample_info) 1 1 2)
unfolding block_of new_piece_cache expected stream piece_size get_total_length get_num_pieces
    sum_lengths contents
client-Awaits = record {
  fits = omega arith;
  sized = refl;
  known = omega arith;
  small = omega arith;
}

block_exchange_example :
    (reply : Bytes) × (handle_message place_of 4 sample_disk server (request_message 1 1 2)
      ≡ ok (replied place_of 4 sample_disk server 1 server_serving reply, none))
    × (handle_message place_of 4 sample_disk client reply
        ≡ ok (
          stored client 1 (block_of place_of 4 sample_disk (new_piece_cache sample_info) 1 1 2),
          none,
        ))
unfolding new_piece_cache
block_exchange_example =
    block_exchange place_of 4 sample_disk server client 1 1 2 server_serving (omega arith)
      (omega arith) (omega arith) (omega (arith, piece_length)) client-Awaits

-- An unchoke and a bitfield in one buffer.
parse_messages-handle_message_example :
    parse_messages place_of 4 sample_disk 3 client (message 1 [] ++ message 5 (64 ∷ [])) ≡ (
      drop_error (handle_message place_of 4 sample_disk client (message 1 [])) >>= λ pc.
      parse_messages place_of 4 sample_disk 2 pc (message 5 (64 ∷ [])))
parse_messages-handle_message_example =
    parse_messages-handle_message place_of 4 sample_disk 2 client 1 [] (message 5 (64 ∷ []))
      (omega arith) (omega arith)
