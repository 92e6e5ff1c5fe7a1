-- ===== src/Peer.antt =====
-- pkg/torrent/peerprotocol.go: the state of a connection to a peer, and what it sends.
-- The network connection is the bytes that arrive and the messages that go out. `arrivals` has for
-- each read to come the bytes that arrive before its deadline; `faults n` says that a write fails
-- once `n` messages are out. The lengths of messages wrap at 2^32, as `uint32(x)` does.
pub mod Handler
pub mod Reader
pub mod Download
pub mod Handshake
pub mod Framing
pub mod Blocks
pub mod Exchange
pub mod Metadata
pub mod Buffered
pub mod Address
use torrent_client.Common.{
  ℕ, ◌+◌, ◌%◌, ◌^◌, Bool, true, false, Option, none, some, List, [], ◌∷◌, ◌++◌, if◌then◌else◌,
  Bytes, codes, length,
}
use torrent_client.Common.Int.{ℤ}
use torrent_client.Common.Outcome.{Outcome, ok, panic, write_failed, Error}
use torrent_client.Bencode.Value.{Value, Fields}
use torrent_client.Bitfield.{ThreadSafeBitfield}
use torrent_client.Cache.{PieceCache}
use torrent_client.Extension.{Extensions, serialize_handshake}
use torrent_client.Wire.{put_uint32, make}

pub record Conn : Type 0 where
  pub arrived : Bytes
  pub arrivals : List Bytes
  pub closed : Bool
  pub sent : List Bytes
  pub faults : ℕ → Bool

pub record PeerInfo : Type 0 where
  pub ipaddr : Bytes
  pub port : Bytes

pub data BlockState : Type 0 where
  not_requested requested have : BlockState

pub record PieceRequestState : Type 0 where
  pub piece_index : ℕ
  pub block_size : ℕ
  pub piece : Bytes
  pub blocks_state : List BlockState
  pub blocks_requesting : ℤ
  pub requesting : Bool

pub record PeerConnection : Type 0 where
  pub choked : Bool
  pub peer_choked : Bool
  pub interested : Bool
  pub peer_interested : Bool
  pub peer_info : PeerInfo
  pub node_bitfield : ThreadSafeBitfield
  pub client_peer_id : Bytes
  pub peer_id : Bytes
  pub info_hash : Bytes
  pub bit_field : Bytes
  pub request : PieceRequestState
  pub extensions : Extensions
  pub piece_cache : Option PieceCache
  pub conn : Option Conn

-- the zero values of the embedded structs
abbrev pub no_request : PieceRequestState
no_request = record {
  piece_index = 0;
  block_size = 0;
  piece = [];
  blocks_state = [];
  blocks_requesting = ℤ.pos 0;
  requesting = false;
}

abbrev pub no_extensions : Extensions
no_extensions = record {
  supports_extensions = false;
  supported_extensions = [];
  metadata_size = ℤ.pos 0;
  requesting_metadata = false;
  requested_metadata = [];
  pieces_received = 0;
}

unfoldable pub new_peer_connection :
    PeerInfo → (peer_id info : Bytes) → (bf_length : ℕ) → ThreadSafeBitfield → PeerConnection
new_peer_connection p_info peer_id info bf_length node_bitfield = record {
  choked = true;
  peer_choked = true;
  interested = false;
  peer_interested = false;
  peer_info = p_info;
  node_bitfield = node_bitfield;
  client_peer_id = peer_id;
  peer_id = make 20;
  info_hash = info;
  bit_field = make bf_length;
  request = no_request;
  extensions = no_extensions;
  piece_cache = none;
  conn = none;
}

-- `NewReceivedPeerConnection`, for a remote address that is split already
unfoldable pub new_received_peer_connection :
    PeerInfo
    → (peer_id info : Bytes) → (bf_length : ℕ) → ThreadSafeBitfield
    → Conn
    → PieceCache
    → PeerConnection
unfolding new_peer_connection
new_received_peer_connection p_info peer_id info bf_length node_bitfield c cache =
    record (new_peer_connection p_info peer_id info bf_length node_bitfield) {
      conn = some c;
      piece_cache = some cache;
    }

-- What a call leaves: the connection, and the error that it returns.
abbrev pub Step : Type 0
Step = Outcome (PeerConnection × Option Error)

-- `pc.conn.Write(msg)`; the message counts as sent when the write does not fail.
unfoldable pub send : PeerConnection → Bytes → Step
send pc msg = elim pc.conn [
  | none ↦ panic
  | some c ↦
      if c.faults (length c.sent)
      then ok (pc, some write_failed)
      else ok (record pc { conn = some (record c { sent = c.sent ++ (msg ∷ []) }) }, none)
]

-- a message of five bytes
abbrev pub short_message : ℕ → Bytes
short_message id = put_uint32 1 ++ (id ∷ [])

unfoldable pub send_choke : PeerConnection → Step
unfolding send put_uint32
send_choke pc = send (record pc { peer_choked = true }) (short_message 0)

unfoldable pub send_unchoke : PeerConnection → Step
unfolding send put_uint32
send_unchoke pc = send (record pc { peer_choked = false }) (short_message 1)

unfoldable pub send_interested : PeerConnection → Step
unfolding send put_uint32
send_interested pc = send (record pc { interested = true }) (short_message 2)

unfoldable pub send_not_interested : PeerConnection → Step
unfolding send put_uint32
send_not_interested pc = send (record pc { interested = false }) (short_message 3)

unfoldable pub send_extension_handshake : PeerConnection → Step
unfolding send serialize_handshake
send_extension_handshake pc =
    send pc
      (serialize_handshake (Fields.field (codes "ut_metadata") (Value.int (ℤ.pos 3)) Fields.end))

abbrev pub bitfield_message : Bytes → Bytes
bitfield_message bf = put_uint32 ((1 + length bf) % 2 ^ 32) ++ (5 ∷ bf)

unfoldable pub send_bitfield : PeerConnection → Step
unfolding send put_uint32
send_bitfield pc = send pc (bitfield_message pc.node_bitfield.bitfield)

unfoldable pub request_message : (index begin len : ℕ) → Bytes
unfolding put_uint32
request_message index begin len =
    put_uint32 13
    ++ (6
        ∷ (put_uint32 (index % 2 ^ 32)
            ++ (put_uint32 (begin % 2 ^ 32) ++ put_uint32 (len % 2 ^ 32))))

-- `requestBlock`
unfoldable pub request_block : PeerConnection → (index begin len : ℕ) → Step
unfolding send request_message
request_block pc index begin len = send pc (request_message index begin len)

unfoldable pub piece_message : (index begin : ℕ) → Bytes → Bytes
unfolding put_uint32
piece_message index begin block =
    put_uint32 ((1 + 4 + 4 + length block) % 2 ^ 32)
    ++ (7 ∷ (put_uint32 (index % 2 ^ 32) ++ (put_uint32 (begin % 2 ^ 32) ++ block)))
