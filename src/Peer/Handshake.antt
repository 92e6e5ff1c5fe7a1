-- ===== src/Peer/Handshake.antt =====
-- pkg/torrent/peerprotocol.go: the handshake. Info hashes and peer ids are arrays of 20 bytes.
-- No deadline is set, so a read that the peer leaves short waits for ever: `no_fuel` here.
pub mod Agreement
use Prim.Native.Nat.{bit_and}
use torrent_client.Common.{
  ℕ, ◌-◌, true, not, ◌||◌, Option, none, some, List, [], ◌∷◌, ◌++◌, leb, ◌==◌, if◌then◌else◌, Bytes,
  codes, length, get_or, take, drop,
}
use torrent_client.Common.Outcome.{
  Outcome, ok, err, panic, no_fuel, check, read_failed, open_failed, bad_handshake_length,
  unknown_protocol, wrong_info_hash, ◌>>=◌, ◌>>◌, Error,
}
use torrent_client.Bencode.Value.{eq_bytes}
use torrent_client.Peer.{PeerConnection, Conn, Step, send, send_extension_handshake, send_bitfield}
use torrent_client.Peer.Reader.{read_full, Reading}
use torrent_client.Wire.{make}

-- `PSTR`
abbrev pub pstr : Bytes
pstr = codes "BitTorrent protocol"

-- Byte 25, among the reserved ones, says that extensions are supported.
unfoldable pub get_handshake_message : PeerConnection → Bytes
get_handshake_message pc =
    19 ∷ (pstr ++ (0 ∷ 0 ∷ 0 ∷ 0 ∷ 0 ∷ 16 ∷ 0 ∷ 0 ∷ (pc.info_hash ++ pc.client_peer_id)))

-- `bytes[a:b]`
abbrev pub slice : Bytes → ℕ → ℕ → Bytes
slice b i j = take (j - i) (drop i b)

unfoldable pub handle_handshake_response : PeerConnection → Bytes → PeerConnection × Option Error
unfolding eq_bytes
handle_handshake_response pc msg =
    if not (length msg == 68)
    then (pc, some bad_handshake_length)
    else if not (get_or msg 0 0 == 19) || not (eq_bytes (slice msg 1 20) pstr)
    then (pc, some unknown_protocol)
    else if not (eq_bytes (slice msg 28 48) pc.info_hash)
    then (pc, some wrong_info_hash)
    else (
      record pc {
        peer_id = drop 48 msg;
        extensions = record (pc.extensions) {
          supports_extensions =
              if bit_and (get_or msg 25 0) 16 == 16
              then true
              else pc.extensions.supports_extensions;
        };
      },
      none,
    )

-- `io.ReadFull` without a deadline
unfoldable pub read_blocking : List Bytes → Conn → ℕ → Outcome ((Bytes × Option Error) × Conn)
unfolding read_full
read_blocking [] c n =
    if leb n (length c.arrived) || c.closed
    then ok (read_full (record c { arrivals = [] }) n)
    else no_fuel
read_blocking (b ∷ later) c n =
    let rest = read_blocking later (record c { arrived = c.arrived ++ b }) n in
    if leb n (length c.arrived) then ok (read_full (record c { arrivals = b ∷ later }) n) else rest

-- `errors.Join`: there is an error if there is one of the two.
abbrev pub join : Option Error → Option Error → Option Error
join none e = e
join (some e) f = some e

-- What is sent behind the two handshakes; the bitfield also goes out when the first send fails.
unfoldable pub send_first : PeerConnection → Step
unfolding send_extension_handshake send_bitfield
send_first pc = do
  a ← if pc.extensions.supports_extensions then send_extension_handshake pc else ok (pc, none)
  b ← if length pc.node_bitfield.bitfield == 0 then ok (a.0, none) else send_bitfield (a.0)
  ok (b.0, join (a.1) (b.1))

-- behind the check of the answer
unfoldable pub checked_response : PeerConnection × Option Error → Step
unfolding send_first
checked_response (pc, some e) = ok (pc, some e)
checked_response (pc, none) = send_first pc

unfoldable pub handle_response : PeerConnection → (Bytes × Option Error) × Conn → Step
unfolding handle_handshake_response checked_response
handle_response pc ((buf, some e), c) = ok (record pc { conn = some c }, some e)
handle_response pc ((buf, none), c) =
    checked_response (handle_handshake_response (record pc { conn = some c }) buf)

unfoldable pub read_response : PeerConnection × Option Error → Step
unfolding read_blocking handle_response
read_response (pc, some e) = ok (pc, some e)
read_response (pc, none) = elim pc.conn [
  | none ↦ panic
  | some c ↦ read_blocking c.arrivals c 68 >>= λ r. handle_response pc r
]

-- `TryConnect`, where `dial` is what `net.DialTimeout` comes back with
unfoldable pub try_connect : (dial : Option Conn) → PeerConnection → PeerConnection × Option Error
try_connect dial pc = elim pc.conn [
  | some c ↦ (pc, none)
  | none ↦ elim dial [
    | none ↦ (pc, some open_failed)
    | some c ↦ (record pc { conn = some c }, none)
  ]
]

-- the part of `Handshake` behind the dialling
unfoldable pub connected : PeerConnection × Option Error → Step
unfolding send get_handshake_message read_response
connected (pc, some e) = ok (pc, some e)
connected (pc, none) = send pc (get_handshake_message pc) >>= λ r. read_response r

-- `Handshake`
unfoldable pub handshake : (dial : Option Conn) → PeerConnection → Step
unfolding try_connect connected
handshake dial pc = connected (try_connect dial pc)
