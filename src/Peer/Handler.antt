-- ===== src/Peer/Handler.antt =====
-- pkg/torrent/peerprotocol.go: what a connection does with a message that it has received.
-- The parameters are those of the cache, for the pieces that a peer asks for.
use torrent_client.Common.{
  ℕ, zero, suc, ◌+◌, ◌/◌, ◌%◌, ◌^◌, true, false, none, some, [], ◌∷◌, ltb, leb, ◌==◌, if◌then◌else◌,
  Bytes, length, set, take, drop,
}
use torrent_client.Common.Int.{ℤ}
use torrent_client.Common.Outcome.{Outcome, ok, panic, check, unknown_message, ◌>>=◌, ◌>>◌}
use torrent_client.Bitfield.{set_bit_field_piece, copy_into}
use torrent_client.Cache.{get_piece_block}
use torrent_client.Extension.{handle_extension, copy_at}
use torrent_client.Peer.{PeerConnection, BlockState, Step, send, send_unchoke, piece_message}
use torrent_client.Storage.{Disk}
use torrent_client.Torrent.{TorrentFile}
use torrent_client.Wire.{uint32, make}

-- The error of a call that the caller drops.
abbrev pub drop_error : Step → Outcome PeerConnection
drop_error s = s >>= λ r. ok (r.0)

-- A handler without a result.
abbrev pub done : Outcome PeerConnection → Step
done m = m >>= λ pc. ok (pc, none)

-- `payload[n:]`
abbrev pub slice_from : Bytes → ℕ → Outcome Bytes
slice_from b n = check (leb n (length b)) >> ok (drop n b)

-- The number at `payload[n:]`.
abbrev pub number_at : Bytes → ℕ → Outcome ℕ
number_at b n = slice_from b n >>= uint32

-- `b[0]`
abbrev pub first : Bytes → Outcome ℕ
first [] = panic
first (b ∷ rest) = ok b

-- `n--`
unfoldable pub pred : ℤ → ℤ
pred (ℤ.pos zero) = ℤ.negsuc 0
pred (ℤ.pos (suc n)) = ℤ.pos n
pred (ℤ.negsuc n) = ℤ.negsuc (suc n)

unfoldable pub handle_choke : PeerConnection → PeerConnection
handle_choke pc = record pc { choked = true }

unfoldable pub handle_unchoke : PeerConnection → PeerConnection
handle_unchoke pc = record pc { choked = false }

unfoldable pub handle_interested : PeerConnection → Outcome PeerConnection
unfolding send_unchoke
handle_interested pc = drop_error (send_unchoke (record pc { peer_interested = true }))

unfoldable pub handle_not_interested : PeerConnection → PeerConnection
handle_not_interested pc = record pc { peer_interested = false }

unfoldable pub handle_bit_field : PeerConnection → Bytes → PeerConnection
unfolding copy_into
handle_bit_field pc bit_field =
    let own =
      if length bit_field == length pc.bit_field then pc.bit_field else make (length bit_field) in
    record pc { bit_field = copy_into own bit_field }

unfoldable pub handle_have : PeerConnection → Bytes → Outcome PeerConnection
unfolding uint32 set_bit_field_piece
handle_have pc payload = do
  piece_index ← uint32 payload
  ok (record pc { bit_field = set_bit_field_piece pc.bit_field piece_index })

-- `handlePiece` behind its reads
unfoldable pub store_block : PeerConnection → (begin : ℕ) → Bytes → Outcome PeerConnection
unfolding copy_at pred
store_block pc begin block = do
  piece ← copy_at pc.request.piece begin block
  let size = pc.request.block_size % 2 ^ 32
  check (ltb 0 size)
  check (ltb (begin / size) (length pc.request.blocks_state))
  ok (record pc {
    request = record (pc.request) {
      piece = piece;
      blocks_state = set pc.request.blocks_state (begin / size) BlockState.have;
      blocks_requesting = pred pc.request.blocks_requesting;
    };
  })

-- `handlePiece`: the index of the piece is not looked at.
unfoldable pub handle_piece : PeerConnection → Bytes → Outcome PeerConnection
unfolding uint32 store_block
handle_piece pc payload = do
  index ← uint32 payload
  begin ← number_at payload 4
  block ← slice_from payload 8
  store_block pc begin block

-- It only logs.
unfoldable pub handle_cancel : PeerConnection → Bytes → Outcome PeerConnection
unfolding uint32
handle_cancel pc payload = do
  index ← uint32 payload
  begin ← number_at payload 4
  len ← number_at payload 8
  ok pc

module _ (place : TorrentFile → ℕ) (fuel : ℕ) (disk : Disk) where
  -- `SendPiece`: a connection without a cache panics.
  unfoldable pub send_piece : PeerConnection → (index begin len : ℕ) → Step
  unfolding get_piece_block send piece_message
  send_piece pc index begin len = elim pc.piece_cache [
    | none ↦ panic
    | some cache ↦ get_piece_block place fuel disk cache index begin len >>= λ (block, cache').
        send (record pc { piece_cache = some cache' }) (piece_message index begin block)
  ]

  unfoldable pub handle_request : PeerConnection → Bytes → Outcome PeerConnection
  unfolding uint32 send_piece
  handle_request pc payload = do
    index ← uint32 payload
    begin ← number_at payload 4
    len ← number_at payload 8
    drop_error (send_piece pc index begin len)

  -- The switch of `HandleMessage`.
  unfoldable pub handle_payload : PeerConnection → (msg_id : ℕ) → Bytes → Step
  unfolding handle_choke handle_unchoke handle_interested handle_not_interested handle_have
      handle_bit_field handle_request handle_piece handle_cancel handle_extension
  handle_payload pc msg_id payload =
      if msg_id == 0
      then done (ok (handle_choke pc))
      else if msg_id == 1
      then done (ok (handle_unchoke pc))
      else if msg_id == 2
      then done (handle_interested pc)
      else if msg_id == 3
      then done (ok (handle_not_interested pc))
      else if msg_id == 4
      then done (handle_have pc payload)
      else if msg_id == 5
      then done (ok (handle_bit_field pc payload))
      else if msg_id == 6
      then done (handle_request pc payload)
      else if msg_id == 7
      then done (handle_piece pc payload)
      else if msg_id == 8
      then done (handle_cancel pc payload)
      else if msg_id == 20
      then done
          (handle_extension pc.extensions payload >>= λ be. ok (record pc { extensions = be }))
      else ok (pc, some unknown_message)

  -- `HandleMessage` for the length that the message begins with: a keep-alive has no id.
  unfoldable pub handle_body : PeerConnection → Bytes → (len : ℕ) → Step
  unfolding handle_payload
  handle_body pc msg zero = ok (pc, none)
  handle_body pc msg (suc n) = do
    msg_id ← first (drop 4 msg)
    check (leb (5 + n) (length msg))
    handle_payload pc msg_id (take n (drop 5 msg))

  unfoldable pub handle_message : PeerConnection → Bytes → Step
  unfolding uint32 handle_body
  handle_message pc msg = do len ← uint32 msg; handle_body pc msg len
