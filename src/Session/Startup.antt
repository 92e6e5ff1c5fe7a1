-- ===== src/Session/Startup.antt =====
-- pkg/torrent/torrentsession.go: how a session finds out which pieces are on the disk already,
-- `initializeBitField`, and the files that it makes before, with pkg/util/file.go. A file is read
-- with `f.Read`, which fills the buffer as far as the file goes.
pub mod Directories
pub mod Digits
pub mod Packing
pub mod Filling
pub mod Checking
pub mod Verified
pub mod Created
use torrent_client.Common.{
  ℕ, zero, suc, ◌+◌, ◌-◌, ◌*◌, ◌/◌, ◌%◌, ◌^◌, Bool, true, false, Option, none, some, List, [], ◌∷◌,
  ◌++◌, map, ltb, ◌==◌, if◌then◌else◌, Bytes, length, take, drop, replicate,
}
use torrent_client.Common.Outcome.{
  panic_on_error, Outcome, ok, err, panic, no_fuel, open_failed, ◌>>=◌,
}
use torrent_client.Bencode.Value.{eq_bytes}
use torrent_client.Bitfield.{ThreadSafeBitfield, new_thread_safe_bitfield}
use torrent_client.Storage.{Disk, with_content}
use torrent_client.Torrent.{
  TorrentFile, TorrentInfo, get_num_pieces, get_total_length, get_piece_hash, is_single_file,
}

-- The open file, with what is left to read of it; `none` is one that is closed, or that could not
-- be opened. The files that come behind it, with what `os.Open` finds at their paths.
pub record Scan : Type 0 where
  pub file : Option Bytes
  pub later : List (Option Bytes)

-- `fileCounter++`, and the next file if there is one: `none` leaves the inner loop.
unfoldable pub open_next : List (Option Bytes) → Option Scan
open_next [] = none
open_next (f ∷ later) = some (record { file = f; later = later })

abbrev pub closed : Scan
closed = record { file = none; later = [] }

-- The inner loop: `want` bytes are missing in the buffer, which holds `got`; `fail` is what the
-- function does where a read fails.
unfoldable pub fill :
    (fail : Outcome (Bytes × Scan))
    → (fuel : ℕ) → Scan
    → (want : ℕ) → (got : Bytes) → Outcome (Bytes × Scan)
unfolding open_next
fill fail fuel s zero got = ok (got, s)
fill fail zero s (suc w) got = no_fuel
fill fail (suc fuel) s (suc w) got = elim s.file [
  | none ↦ fail
  | some c ↦
      let b = take (suc w) c in
      let left = suc w - length b in
      elim (ltb (length b) left) [
        | false ↦ fill fail fuel (record s { file = some (drop (suc w) c) }) left (got ++ b)
        | true ↦ elim (open_next s.later) [
          | none ↦ ok (got ++ b, closed)
          | some s' ↦ fill fail fuel s' left (got ++ b)
        ]
      ]
]

-- `bitfield`, `v` and `piecesChecked`
pub record Tally : Type 0 where
  pub bits : Bytes
  pub v : ℕ
  pub checked : ℕ

-- A piece is valid or not; `v` is a byte.
unfoldable pub count_piece : Tally → (valid : Bool) → Tally
count_piece t valid =
    let v' = (t.v * 2 % 256 + (if valid then 1 else 0)) % 256 in
    if (t.checked + 1) % 8 == 0
    then record { bits = t.bits ++ (v' ∷ []); v = 0; checked = t.checked + 1 }
    else record { bits = t.bits; v = v'; checked = t.checked + 1 }

-- The last byte, if it is not full.
unfoldable pub close_tally : Tally → Bytes
close_tally t =
    if t.checked % 8 == 0 then t.bits else t.bits ++ ((t.v * 2 ^ (8 - t.checked % 8) % 256) ∷ [])

-- `CreateEmptyFile` with `ChunkSize` 1000: chunks, and then single bytes.
unfoldable pub write_chunks : (fuel size : ℕ) → (i : ℕ) → Outcome (Bytes × ℕ)
write_chunks zero size i = no_fuel
write_chunks (suc fuel) size i =
    let more = write_chunks fuel size (i + 1000) >>= λ r. ok (replicate 1000 0 ++ r.0, r.1) in
    if ltb (i + 1000) size then more else ok ([], i)

unfoldable pub write_singles : (fuel size : ℕ) → (i : ℕ) → Outcome Bytes
write_singles zero size i = no_fuel
write_singles (suc fuel) size i =
    let more = write_singles fuel size (i + 1) >>= λ r. ok (0 ∷ r) in
    if ltb i size then more else ok []

unfoldable pub create_empty_file : (size : ℕ) → Outcome Bytes
unfolding write_chunks write_singles
create_empty_file size = do
  chunks ← write_chunks (suc size) size 0
  singles ← write_singles (suc size) size (chunks.1)
  ok (chunks.0 ++ singles)

-- `initializeFile`
unfoldable pub initialize_file : Disk → (path size : ℕ) → Outcome Disk
unfolding create_empty_file with_content
initialize_file disk path size = elim (disk path) [
  | some c ↦ ok disk
  | none ↦ create_empty_file size >>= λ c. ok (with_content disk path c)
]

module _ (sha1 : Bytes → Bytes) where
  -- The outer loop, over the bytes of the torrent from `i` on.
  unfoldable pub check_loop : (fuel : ℕ) → TorrentInfo → Scan → Tally → (i : ℕ) → Outcome Tally
  unfolding fill count_piece eq_bytes get_piece_hash
  check_loop zero ti s t i = no_fuel
  check_loop (suc fuel) ti s t i = elim (ltb i (get_total_length ti)) [
    | false ↦ ok t
    | true ↦ do
      r ← fill panic (suc (ti.piece_length + length s.later)) s ti.piece_length []
      hash ← get_piece_hash ti t.checked
      check_loop fuel ti r.1 (count_piece t (eq_bytes hash (sha1 r.0))) (i + ti.piece_length)
  ]

  -- `initializeBitField`, for what `os.Open` finds at the paths
  unfoldable pub initialize_bit_field :
      TorrentInfo → List (Option Bytes) → Outcome ThreadSafeBitfield
  unfolding check_loop close_tally
  initialize_bit_field ti [] = panic
  initialize_bit_field ti (none ∷ later) = err open_failed
  initialize_bit_field ti (some c ∷ later) = do
    t ←
        check_loop (suc (get_total_length ti)) ti (record { file = some c; later = later })
          (record { bits = []; v = 0; checked = 0 }) 0
    ok (new_thread_safe_bitfield (close_tally t) [])

-- `handleInitError`
abbrev pub handle_init_error : {A : Type 0} → Outcome A → Outcome A
handle_init_error r = panic_on_error r

module _ (place : TorrentFile → ℕ) where
  -- the loop of `initializeFilesForMultipleFiles`
  unfoldable pub initialize_files : Disk → List TorrentFile → Outcome Disk
  unfolding initialize_file
  initialize_files disk [] = ok disk
  initialize_files disk (f ∷ fs) = do
    disk' ← handle_init_error (initialize_file disk (place f) f.length)
    initialize_files disk' fs

module _ (sha1 : Bytes → Bytes) (place : TorrentFile → ℕ) where
  -- `initializeFilesForMultipleFiles`
  unfoldable pub initialize_for_multiple_files :
      Disk → TorrentInfo → Outcome (Disk × ThreadSafeBitfield)
  unfolding initialize_files initialize_bit_field
  initialize_for_multiple_files disk ti = do
    disk' ← initialize_files place disk ti.files
    bf ← handle_init_error (initialize_bit_field sha1 ti (map (λ f. disk' (place f)) ti.files))
    ok (disk', bf)

  -- `initializeFilesForSingleFile`: a new file has no piece, and is not looked at.
  unfoldable pub initialize_for_single_file :
      (path : ℕ) → Disk → TorrentInfo → Outcome (Disk × ThreadSafeBitfield)
  unfolding initialize_bit_field create_empty_file with_content
  initialize_for_single_file path disk ti = elim (disk path) [
    | none ↦ do
      c ← handle_init_error (create_empty_file ti.length)
      ok (
        with_content disk path c,
        new_thread_safe_bitfield (replicate ((get_num_pieces ti + 7) / 8) 0) [],
      )
    | some c ↦ do bf ← handle_init_error (initialize_bit_field sha1 ti (some c ∷ [])); ok (disk, bf)
  ]

  -- `initialize`
  unfoldable pub initialize : (path : ℕ) → Disk → TorrentInfo → Outcome (Disk × ThreadSafeBitfield)
  unfolding initialize_for_single_file initialize_for_multiple_files
  initialize path disk ti =
      if ti.length == 0
      then initialize_for_multiple_files disk ti
      else initialize_for_single_file path disk ti
