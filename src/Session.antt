-- ===== src/Session.antt =====
-- pkg/torrent/torrentsession.go: the checks of a session on its pieces, and where it writes them.
-- The hash function is a parameter, `sha1.Sum` of Go's library.
pub mod Pieces
pub mod Startup
pub mod Machine
pub mod Worker
pub mod Run
pub mod Seeding
pub mod Metadata
use torrent_client.Common.{ℕ, zero, suc, ◌+◌, ◌*◌, Bool, true, false, not, if◌then◌else◌, Bytes}
use torrent_client.Common.Outcome.{Outcome, ok, ◌>>=◌}
use torrent_client.Bencode.Value.{eq_bytes}
use torrent_client.Bitfield.{ThreadSafeBitfield, safe_has_piece}
use torrent_client.Storage.{Disk, or_panic, with_content, write_at, write_piece_to_files}
use torrent_client.Torrent.{
  TorrentFile, TorrentInfo, get_num_pieces, get_piece_hash, is_single_file,
}

-- `verifyPiece`
unfoldable pub verify_piece :
    (sha1 : Bytes → Bytes) → TorrentInfo → (piece_index : ℕ) → Bytes → Outcome Bool
unfolding eq_bytes get_piece_hash
verify_piece sha1 ti piece_index piece = do
  expected ← get_piece_hash ti piece_index
  ok (eq_bytes (sha1 piece) expected)

-- the loop of `gotAllPieces` over the `n` pieces from `i` on
unfoldable pub got_pieces : ThreadSafeBitfield → (i n : ℕ) → Bool
unfolding safe_has_piece
got_pieces bf i zero = true
got_pieces bf i (suc n) =
    let rest = got_pieces bf (i + 1) n in if not (safe_has_piece bf i) then false else rest

-- `gotAllPieces`
unfoldable pub got_all_pieces : TorrentInfo → ThreadSafeBitfield → Bool
unfolding got_pieces get_num_pieces
got_all_pieces ti bf = got_pieces bf 0 (get_num_pieces ti)

module _ (place : TorrentFile → ℕ) where
  -- `writePieceToSingleFile`: the file of the torrent is the one at `path`.
  unfoldable pub write_piece_to_single_file :
      (path : ℕ) → Disk → TorrentInfo → (piece_index : ℕ) → Bytes → Outcome Disk
  unfolding with_content write_at
  write_piece_to_single_file path disk ti piece_index piece = do
    c ← or_panic (disk path)
    ok (with_content disk path (write_at c (piece_index * ti.piece_length) piece))

  -- `writePieceToFile`
  unfoldable pub write_piece_to_file :
      (path : ℕ) → Disk → TorrentInfo → (piece_index : ℕ) → Bytes → Outcome Disk
  unfolding is_single_file write_piece_to_single_file write_piece_to_files
  write_piece_to_file path disk ti piece_index piece =
      if is_single_file ti
      then write_piece_to_single_file path disk ti piece_index piece
      else write_piece_to_files place ti.files disk ti.piece_length piece_index piece
