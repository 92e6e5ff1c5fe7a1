-- ===== src/Peer/Blocks.antt =====
-- Request and piece messages as their parts, and what a piece message does to the client that
-- waits for the block.
use torrent_client.Common.{
  ℕ, ◌+◌, ◌-◌, ◌/◌, ◌%◌, ◌^◌, ◌≤◌, ◌<◌, ◌≡◌, ap, inl, inr, true, [], ◌∷◌, ◌++◌, arith, ltb, leb,
  ◌==◌, lt→ltb, Bool-cases, Bytes, length, set, drop, length-drop, length-replicate, drop-drop,
  take-nil,
}
use torrent_client.Common.Outcome.{ok}
use torrent_client.Bitfield.{copy_into}
use torrent_client.Cache.Transparent.{copy_into-whole}
use torrent_client.Extension.{copy_at}
use torrent_client.Peer.{PeerConnection, BlockState, request_message, piece_message}
use torrent_client.Peer.Handler.{
  handle_piece, store_block, slice_from, number_at, handle_bit_field, pred,
}
use torrent_client.Storage.Splice.{splice}
use torrent_client.Wire.{put_uint32, make}
use torrent_client.Wire.Laws.{uint32-put, uint32-put_only}

copy_into-fits :
    (dst src : Bytes) → length src ≤ length dst → copy_into dst src ≡ src ++ drop (length src) dst
unfolding copy_into
copy_into-fits dst [] h = ap (λ t. t ++ dst) (take-nil (length dst))
copy_into-fits [] (x ∷ src) h = absurd (omega arith)
copy_into-fits (y ∷ dst) (x ∷ src) h = ap (◌∷◌ x) (copy_into-fits dst src (omega arith))

-- a copy into a slice that has room for all of it
pub copy_at-splice :
    (s b : Bytes) (off : ℕ) → off + length b ≤ length s → copy_at s off b ≡ ok (splice s off b)
unfolding copy_at splice
copy_at-splice s b off h =
    let inside : leb off (length s) ≡ true = ground arith in
    let e = length-drop off s in
    rw (inside, copy_into-fits (drop off s) b (omega arith), drop-drop off (length b) s)

pub handle_bit_field_own :
    (pc : PeerConnection) (bf : Bytes) → handle_bit_field pc bf ≡ record pc { bit_field = bf }
unfolding handle_bit_field
handle_bit_field_own pc bf = elim (Bool-cases (length bf == length pc.bit_field)) [
  | inl same ↦
      let e : length pc.bit_field ≡ length bf = ground arith in
      rw (same, copy_into-whole pc.bit_field bf e)
  | inr differs ↦ rw (differs, copy_into-whole (make (length bf)) bf (length-replicate _ 0))
]

-- the block that a client wants to have in place when the message comes
pub record Awaits (pc : PeerConnection) (begin : ℕ) (block : Bytes) : Type 0 where
  pub fits : begin + length block ≤ length pc.request.piece
  pub sized : pc.request.block_size ≡ 16384
  pub known : begin / 16384 < length pc.request.blocks_state
  pub small : length block < 2 ^ 32 - 9

-- What the client is when the block is in place.
unfoldable pub stored : (pc : PeerConnection) (begin : ℕ) (block : Bytes) → PeerConnection
stored pc begin block = record pc {
  request = record (pc.request) {
    piece = splice pc.request.piece begin block;
    blocks_state = set pc.request.blocks_state (begin / 16384) BlockState.have;
    blocks_requesting = pred pc.request.blocks_requesting;
  };
}

pub store_block-Awaits :
    (pc : PeerConnection) (begin : ℕ) (block : Bytes)
    → Awaits pc begin block
    → store_block pc begin block ≡ ok (stored pc begin block)
unfolding store_block stored splice
store_block-Awaits pc begin block a =
    let known : ltb (begin / 16384) (length pc.request.blocks_state) ≡ true =
      lt→ltb _ _ (a.known) in
    rw (copy_at-splice pc.request.piece block begin (a.fits)) (simp (a.sized, known))

pub second_number :
    (a b : ℕ) (rest : Bytes)
    → b < 2 ^ 32
    → number_at (put_uint32 a ++ (put_uint32 b ++ rest)) 4 ≡ ok b
unfolding put_uint32
second_number a b rest h =
    let inside : leb 4 (length (put_uint32 a ++ (put_uint32 b ++ rest))) ≡ true = ground arith in
    rw inside (uint32-put b rest h)

pub eighth :
    (a b : ℕ) (rest : Bytes) → slice_from (put_uint32 a ++ (put_uint32 b ++ rest)) 8 ≡ ok rest
unfolding put_uint32
eighth a b rest =
    let inside : leb 8 (length (put_uint32 a ++ (put_uint32 b ++ rest))) ≡ true = ground arith in
    rw inside

pub handle_piece-Awaits :
    (pc : PeerConnection) (index begin : ℕ) (block : Bytes)
    → index < 2 ^ 32
    → begin < 2 ^ 32
    → Awaits pc begin block
    → handle_piece pc (put_uint32 index ++ (put_uint32 begin ++ block)) ≡ ok (stored pc begin block)
unfolding handle_piece
handle_piece-Awaits pc index begin block hi hb a =
    let payload = put_uint32 index ++ (put_uint32 begin ++ block) in
    let inside : slice_from payload 8 ≡ ok block = eighth index begin block in
    rw (uint32-put index (put_uint32 begin ++ block) hi, second_number index begin block hb, inside)
      (store_block-Awaits pc begin block a)

pub third_number :
    (a b n : ℕ) → n < 2 ^ 32 → number_at (put_uint32 a ++ (put_uint32 b ++ put_uint32 n)) 8 ≡ ok n
third_number a b n h = rw (eighth a b (put_uint32 n)) (uint32-put_only n h)

pub request_message_small :
    (index begin len : ℕ)
    → index < 2 ^ 32
    → begin < 2 ^ 32
    → len < 2 ^ 32
    → request_message index begin len
      ≡ put_uint32 13 ++ (6 ∷ (put_uint32 index ++ (put_uint32 begin ++ put_uint32 len)))
unfolding request_message
request_message_small index begin len hi hb hl =
    let i : index % 2 ^ 32 ≡ index = omega arith in
    let b : begin % 2 ^ 32 ≡ begin = omega arith in
    let l : len % 2 ^ 32 ≡ len = omega arith in rw (i, b, l)

pub piece_message_small :
    (index begin : ℕ) (block : Bytes)
    → index < 2 ^ 32
    → begin < 2 ^ 32
    → length block < 2 ^ 32 - 9
    → piece_message index begin block
      ≡ put_uint32 (9 + length block) ++ (7 ∷ (put_uint32 index ++ (put_uint32 begin ++ block)))
unfolding piece_message
piece_message_small index begin block hi hb hn =
    let i : index % 2 ^ 32 ≡ index = omega arith in
    let b : begin % 2 ^ 32 ≡ begin = omega arith in
    let n : (9 + length block) % 2 ^ 32 ≡ 9 + length block = omega arith in rw (i, b, n)

pub length_two :
    (a b : ℕ) (rest : Bytes) → length (put_uint32 a ++ (put_uint32 b ++ rest)) ≡ 8 + length rest
unfolding put_uint32
length_two a b rest = omega arith
