-- ===== src/Peer/Download.antt =====
-- pkg/torrent/peerprotocol.go: `getPiece`, which asks a peer for the blocks of a piece, ten at a
-- time, and handles what arrives until no block is outstanding.
pub mod Messages
pub mod Size
use torrent_client.Common.{
  ℕ, zero, suc, ◌+◌, ◌-◌, ◌*◌, Bool, true, false, ◌&&◌, Option, none, some, List, [], ◌∷◌, ltb,
  ◌==◌, if◌then◌else◌, Bytes, length, set, replicate,
}
use torrent_client.Common.Int.{ℤ}
use torrent_client.Common.Outcome.{Outcome, ok, no_fuel, check, ◌>>=◌, ◌>>◌, Error}
use torrent_client.Peer.{PeerConnection, BlockState, request_block}
use torrent_client.Peer.Handler.{drop_error}
use torrent_client.Peer.Reader.{read_and_handle_message}
use torrent_client.Storage.{Disk}
use torrent_client.Torrent.{TorrentFile, ceil_div}
use torrent_client.Wire.{make}

-- `MaxQueuedRequests`
abbrev pub max_queued_requests : ℕ
max_queued_requests = 10

-- `pc.BlocksRequesting < MaxQueuedRequests`
unfoldable pub has_room : ℤ → Bool
has_room (ℤ.pos n) = ltb n max_queued_requests
has_room (ℤ.negsuc n) = true

-- `pc.BlocksRequesting++`
unfoldable pub succ : ℤ → ℤ
succ (ℤ.pos n) = ℤ.pos (suc n)
succ (ℤ.negsuc zero) = ℤ.pos 0
succ (ℤ.negsuc (suc n)) = ℤ.negsuc n

abbrev pub is_requested : BlockState → Bool
is_requested BlockState.requested = true
is_requested _ = false

-- `gotAllBlocks`, over the states of the blocks
unfoldable pub got_all_blocks : List BlockState → Bool
got_all_blocks [] = true
got_all_blocks (b ∷ bs) = if is_requested b then false else got_all_blocks bs

-- The state of the request at the start of `getPiece`; `BlocksRequesting` stays as it is.
unfoldable pub start_request : PeerConnection → (piece_index piece_size : ℕ) → PeerConnection
unfolding ceil_div
start_request pc piece_index piece_size = record pc {
  request = record (pc.request) {
    piece_index = piece_index;
    block_size = 16384;
    piece = if length pc.request.piece == piece_size then pc.request.piece else make piece_size;
    blocks_state = replicate (ceil_div piece_size 16384) BlockState.not_requested;
    requesting = true;
  };
}

-- The length of block `n`: the last one is what the others leave.
unfoldable pub block_length : (piece_size blocks n : ℕ) → ℕ
block_length piece_size blocks n = if n + 1 == blocks then piece_size - n * 16384 else 16384

-- Block `n` is asked for; an error of the write is dropped.
unfoldable pub request_next :
    PeerConnection → (piece_index piece_size blocks n : ℕ) → Outcome PeerConnection
unfolding request_block block_length succ
request_next pc piece_index piece_size blocks n = do
  pc' ←
      drop_error (
        request_block pc piece_index (n * pc.request.block_size) (block_length piece_size blocks n))
  check (ltb n (length pc'.request.blocks_state))
  ok (record pc' {
    request = record (pc'.request) {
      blocks_requesting = succ pc'.request.blocks_requesting;
      blocks_state = set pc'.request.blocks_state n BlockState.requested;
    };
  })

-- What `getPiece` returns: the piece or the error, and the connection.
abbrev pub Download : Type 0
Download = Outcome ((Bytes × Option Error) × PeerConnection)

-- `pc.Requesting = false`, and the piece
abbrev pub finish : PeerConnection → (Bytes × Option Error) × PeerConnection
finish pc =
    ((pc.request.piece, none), record pc { request = record (pc.request) { requesting = false } })

-- An error of `ReadAndHandleMessage` ends the loop.
abbrev pub after_message : PeerConnection × Option Error → (PeerConnection → Download) → Download
after_message (pc, none) continue = continue pc
after_message (pc, some e) continue = ok (([], some e), pc)

module _ (place : TorrentFile → ℕ) (fuel : ℕ) (disk : Disk) where
  -- The loop of `getPiece` in `rounds` rounds; `n` is `nextRequest`.
  unfoldable pub get_piece_loop :
      (rounds : ℕ) → PeerConnection → (piece_index piece_size blocks n : ℕ) → Download
  unfolding has_room request_next got_all_blocks read_and_handle_message
  get_piece_loop zero pc piece_index piece_size blocks n = no_fuel
  get_piece_loop (suc rounds) pc piece_index piece_size blocks n =
      elim (has_room pc.request.blocks_requesting && ltb n blocks) [
        | true ↦ request_next pc piece_index piece_size blocks n >>= λ pc'.
            get_piece_loop rounds pc' piece_index piece_size blocks (n + 1)
        | false ↦ elim (got_all_blocks pc.request.blocks_state) [
          | true ↦ ok (finish pc)
          | false ↦ read_and_handle_message place fuel disk pc >>= λ r.
              after_message r (λ pc'. get_piece_loop rounds pc' piece_index piece_size blocks n)
        ]
      ]

  -- `getPiece`
  unfoldable pub get_piece : (rounds : ℕ) → PeerConnection → (piece_index piece_size : ℕ) → Download
  unfolding start_request get_piece_loop ceil_div
  get_piece rounds pc piece_index piece_size =
      get_piece_loop rounds (start_request pc piece_index piece_size) piece_index piece_size
        (ceil_div piece_size 16384) 0
