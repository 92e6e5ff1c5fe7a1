-- ===== src/Storage.antt =====
-- How pieces lie in the files of a torrent: `writePieceToFiles` and `writePieceToSingleFile`
-- (pkg/torrent/torrentsession.go), `getPieceFromFile` (pkg/torrent/cache.go).
-- A disk maps the identity of a file to its bytes. Which file a path names is a parameter,
-- `place`: `filepath.Join(topDir, path...)`. Each call holds the file lock for one access, and a
-- failure to open or to write panics, as the session's code does.
pub mod Splice
pub mod Layout
pub mod Write
pub mod Read
use torrent_client.Common.{
  ℕ, zero, suc, ◌+◌, ◌-◌, ◌*◌, Bool, true, false, ◌&&◌, Option, none, some, List, [], ◌∷◌, ◌++◌,
  ltb, ◌==◌, if◌then◌else◌, Bytes, length, take, drop, replicate,
}
use torrent_client.Common.Outcome.{open_failed, Outcome, ok, err, panic, no_fuel, ◌>>=◌, Error}
use torrent_client.Torrent.{TorrentFile}

abbrev pub Disk : Type 0
Disk = ℕ → Option Bytes

unfoldable pub with_content : Disk → ℕ → Bytes → Disk
with_content d k c j = if j == k then some c else d j

-- `f.WriteAt(b, off)`: a gap behind the end of the file is filled with zeros.
unfoldable pub write_at : Bytes → ℕ → Bytes → Bytes
write_at c off b = take off (c ++ replicate (off - length c) 0) ++ (b ++ drop (off + length b) c)

-- `f.ReadAt(b, off)` with `len(b) = n`: what lies in the file, `n` bytes at most
unfoldable pub read_at : Bytes → ℕ → ℕ → Bytes
read_at c off n = take n (drop off c)

-- The inner loop of both routines: the file that holds byte `pos` of the torrent and whether
-- there is one (the last file stands in otherwise), and the length of the files passed over.
unfoldable pub find_file :
    List TorrentFile → (pos counter : ℕ) → TorrentFile → TorrentFile × ℕ × Bool
find_file [] pos counter last = (last, counter, false)
find_file (f ∷ fs) pos counter last =
    if ltb pos (counter + f.length)
    then (f, counter, true)
    else find_file fs pos (counter + f.length) f

-- `var torrentFile TorrentFile`
abbrev pub no_file : TorrentFile
no_file = record { length = 0; path = [] }

-- `bytesToWrite`, for `len` bytes at `pos`
unfoldable pub bytes_to_write : TorrentFile × ℕ × Bool → (pos len : ℕ) → ℕ
bytes_to_write (f, counter, found) pos len =
    if found && ltb (counter + f.length) (len + pos) then counter + f.length - pos else len

abbrev pub or_panic {ℓ} : {A : Type ℓ} → Option A → Outcome A
or_panic none = panic
or_panic (some a) = ok a

module _ (place : TorrentFile → ℕ) (files : List TorrentFile) where
  -- `writeBytesToFile`
  unfoldable pub write_bytes_to_file : Disk → TorrentFile → Bytes → ℕ → Outcome Disk
  unfolding write_at with_content
  write_bytes_to_file disk f b off = do
    c ← or_panic (disk (place f))
    ok (with_content disk (place f) (write_at c off b))

  -- The loop of `writePieceToFiles`; `pos` is `pieceStartPos`.
  unfoldable pub write_loop : ℕ → Disk → (pos : ℕ) → Bytes → Outcome Disk
  write_loop fuel disk pos [] = ok disk
  write_loop zero disk pos (x ∷ piece) = no_fuel
  write_loop (suc fuel) disk pos (x ∷ piece) = do
    let found = find_file files pos 0 no_file
    let n = bytes_to_write found pos (length (x ∷ piece))
    disk' ← write_bytes_to_file disk found.0 (take n (x ∷ piece)) (pos - found.1)
    write_loop fuel disk' (pos + n) (drop n (x ∷ piece))

  -- Every round writes a byte or more.
  unfoldable pub write_piece_to_files : Disk → (piece_length piece_index : ℕ) → Bytes → Outcome Disk
  unfolding write_loop write_bytes_to_file find_file bytes_to_write
  write_piece_to_files disk piece_length piece_index piece =
      write_loop (length piece) disk (piece_index * piece_length) piece

  -- `readBytesfromFile`: `none` where the file cannot be opened
  unfoldable pub read_bytes_from_file : Disk → TorrentFile → (off n : ℕ) → Option Bytes
  unfolding read_at
  read_bytes_from_file disk f off n = elim (disk (place f)) [
    | none ↦ none
    | some c ↦ some (read_at c off n)
  ]

  -- The loop of `getPieceFromFile`: `n` bytes are wanted from `pos` on, `got` is what the buffer
  -- holds. The result is that and the error. An end of file is no error, so a round may read
  -- nothing and be made again.
  unfoldable pub read_loop : ℕ → Disk → (pos n : ℕ) → (got : Bytes) → Outcome (Bytes × Option Error)
  read_loop fuel disk pos zero got = ok (got, none)
  read_loop zero disk pos (suc n) got = no_fuel
  read_loop (suc fuel) disk pos (suc n) got =
      let found = find_file files pos 0 no_file in
      elim (read_bytes_from_file disk found.0 (pos - found.1) (suc n)) [
        | none ↦ ok (got, some open_failed)
        | some b ↦ read_loop fuel disk (pos + length b) (suc n - length b) (got ++ b)
      ]

  -- `getPieceFromFile` with a buffer of `n` bytes, in `fuel` rounds
  unfoldable pub get_piece_from_file :
      (fuel : ℕ) → Disk → (piece_length piece_index n : ℕ) → Outcome (Bytes × Option Error)
  unfolding read_loop read_bytes_from_file find_file
  get_piece_from_file fuel disk piece_length piece_index n =
      read_loop fuel disk (piece_index * piece_length) n []
