-- ===== src/Peer/Buffered.antt =====
-- pkg/torrent/peerprotocol.go: `parseMessages`, the loop over a buffer of messages, in `n` rounds.
-- Each round takes four bytes or more off the buffer.
pub mod Agrees
use torrent_client.Common.{
  ℕ, zero, suc, ◌-◌, [], ◌∷◌, ltb, leb, ◌==◌, if◌then◌else◌, Bytes, length, take, drop,
}
use torrent_client.Common.Outcome.{Outcome, ok, no_fuel, check, ◌>>=◌, ◌>>◌}
use torrent_client.Peer.{PeerConnection}
use torrent_client.Peer.Handler.{
  first, handle_choke, handle_unchoke, handle_interested, handle_not_interested, handle_have,
  handle_bit_field, handle_request, handle_piece, handle_cancel,
}
use torrent_client.Storage.{Disk}
use torrent_client.Torrent.{TorrentFile}
use torrent_client.Wire.{uint32}

-- The payload; messages up to 3 have none, and their length is not looked at.
unfoldable pub payload_of : (msg_id len : ℕ) → Bytes → Outcome Bytes
payload_of msg_id len rest =
    if ltb 3 msg_id
    then (check (leb (len - 1) (length rest)) >> ok (take (len - 1) rest))
    else ok []

module _ (place : TorrentFile → ℕ) (fuel : ℕ) (disk : Disk) where
  -- the switch, which passes over the other messages
  unfoldable pub handle_known : PeerConnection → (msg_id : ℕ) → Bytes → Outcome PeerConnection
  unfolding handle_choke handle_unchoke handle_interested handle_not_interested handle_have
      handle_bit_field handle_request handle_piece handle_cancel
  handle_known pc msg_id payload =
      if msg_id == 0
      then ok (handle_choke pc)
      else if msg_id == 1
      then ok (handle_unchoke pc)
      else if msg_id == 2
      then handle_interested pc
      else if msg_id == 3
      then ok (handle_not_interested pc)
      else if msg_id == 4
      then handle_have pc payload
      else if msg_id == 5
      then ok (handle_bit_field pc payload)
      else if msg_id == 6
      then handle_request place fuel disk pc payload
      else if msg_id == 7
      then handle_piece pc payload
      else if msg_id == 8
      then handle_cancel pc payload
      else ok pc

  -- the part of a round behind the length; `continue` is the next round.
  unfoldable pub parse_round :
      (continue : PeerConnection → Bytes → Outcome PeerConnection)
      → PeerConnection
      → (len : ℕ) → Bytes
      → Outcome PeerConnection
  unfolding payload_of handle_known
  parse_round continue pc zero rest = continue pc rest
  parse_round continue pc (suc k) rest = do
    msg_id ← first rest
    payload ← payload_of msg_id (suc k) (drop 1 rest)
    pc' ← handle_known pc msg_id payload
    continue pc' (drop k (drop 1 rest))

  -- `parseMessages` on what is left of the buffer
  unfoldable pub parse_messages : (n : ℕ) → PeerConnection → Bytes → Outcome PeerConnection
  unfolding uint32 parse_round
  parse_messages zero pc msg = no_fuel
  parse_messages (suc n) pc [] = ok pc
  parse_messages (suc n) pc (b ∷ msg) = uint32 (b ∷ msg) >>= λ len.
      parse_round (λ pc' rest. parse_messages n pc' rest) pc len (drop 4 (b ∷ msg))
