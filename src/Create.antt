-- ===== src/Create.antt =====
-- pkg/torrent/util.go: a torrent of a file or a directory. The hash function is a parameter, and so
-- is what `os.Open` finds at a path below the directory.
pub mod Hashes
pub mod Seeding
pub mod Paths
use torrent_client.Common.{
  ℕ, zero, suc, ◌+◌, Bool, true, false, ◌&&◌, Option, none, some, List, [], ◌∷◌, ◌++◌, map, ltb,
  ◌==◌, Bytes, length, take, drop,
}
use torrent_client.Common.Outcome.{Outcome, ok, err, panic, no_fuel, read_failed, Error, ◌>>=◌}
use torrent_client.Session.Startup.{Scan, fill}
use torrent_client.Torrent.{TorrentFile, TorrentInfo}

-- what `os.Stat` and `os.ReadDir` find: a file with its size, or a directory
mutual
  pub data Entry : Type 0 where
    file : (name : Bytes) (size : Option ℕ) → Entry
    dir : (name : Bytes) (entries : Entries) → Entry

  pub data Entries : Type 0 where
    unreadable : Entries
    nil : Entries
    cons : Entry → Entries → Entries

-- `copy(dst, src)`
unfoldable pub copy_names : (dst src : List Bytes) → List Bytes
copy_names [] src = []
copy_names (d ∷ dst) [] = d ∷ dst
copy_names (d ∷ dst) (s ∷ src) = s ∷ copy_names dst src

-- The record of a file: its path is nil at first.
unfoldable pub torrent_file : (file_path : List Bytes) (name : Bytes) (size : ℕ) → TorrentFile
unfolding copy_names
torrent_file file_path name size = record {
  length = size;
  path = copy_names [] file_path ++ (name ∷ []);
}

unfoldable mutual
  unfolding torrent_file

  -- `getTorrentFiles`
  pub get_torrent_files : Entries → (file_path : List Bytes) → Outcome (List TorrentFile)
  get_torrent_files Entries.unreadable file_path = err read_failed
  get_torrent_files Entries.nil file_path = ok []
  get_torrent_files (Entries.cons e es) file_path = do
    fs ← files_of_entry e file_path
    rest ← get_torrent_files es file_path
    ok (fs ++ rest)

  -- one round of its loop
  pub files_of_entry : Entry → (file_path : List Bytes) → Outcome (List TorrentFile)
  files_of_entry (Entry.file name none) file_path = err read_failed
  files_of_entry (Entry.file name (some size)) file_path =
      ok (torrent_file file_path name size ∷ [])
  files_of_entry (Entry.dir name es) file_path = get_torrent_files es (file_path ++ (name ∷ []))

-- `fileCounter == len(filePaths)`: the last file is closed.
unfoldable pub at_end : Scan → Bool
at_end s = elim s.file [ none ↦ true | some c ↦ false ]

module _ (sha1 : Bytes → Bytes) where
  -- The loop of `getFilePieceHashes`; with no piece length nothing is ever read.
  unfoldable pub hash_loop : (fuel piece_length : ℕ) → Scan → Outcome Bytes
  unfolding fill at_end
  hash_loop zero piece_length s = no_fuel
  hash_loop (suc fuel) piece_length s = do
    r ← fill (err read_failed) (suc (piece_length + length s.later)) s piece_length []
    elim (ltb 0 piece_length && at_end r.1) [
      | true ↦ ok (sha1 r.0)
      | false ↦ do rest ← hash_loop fuel piece_length r.1; ok (sha1 r.0 ++ rest)
    ]

  -- `getFilePieceHashes`, for what `os.Open` finds at the paths
  unfoldable pub get_file_piece_hashes :
      (fuel : ℕ) → List (Option Bytes) → (piece_length : ℕ) → Outcome Bytes
  unfolding hash_loop
  get_file_piece_hashes fuel [] piece_length = panic
  get_file_piece_hashes fuel (f ∷ later) piece_length =
      hash_loop fuel piece_length (record { file = f; later = later })

  -- The loop of `createSingleFileTorrentInfo`, over what is left to read.
  unfoldable pub single_hashes : (fuel piece_length : ℕ) → Bytes → Outcome Bytes
  single_hashes zero piece_length c = no_fuel
  single_hashes (suc fuel) piece_length [] = ok []
  single_hashes (suc fuel) piece_length (x ∷ c) = do
    rest ← single_hashes fuel piece_length (drop piece_length (x ∷ c))
    ok (sha1 (take piece_length (x ∷ c)) ++ rest)

  -- `createSingleFileTorrentInfo`, with the record as it leaves it and its error. The division
  -- panics where the piece length is 0.
  unfoldable pub create_single_file_torrent_info :
      (content : Option Bytes)
      → (name : Bytes) (size : Option ℕ) → TorrentInfo
      → Outcome (TorrentInfo × Option Error)
  unfolding single_hashes
  create_single_file_torrent_info content name none ti = ok (ti, some read_failed)
  create_single_file_torrent_info none name (some size) ti =
      ok (record ti { length = size; name = name }, some read_failed)
  create_single_file_torrent_info (some c) name (some size) ti = elim (ti.piece_length == 0) [
    | true ↦ panic
    | false ↦ do
      hashes ← single_hashes (suc (length c)) ti.piece_length c
      ok (record ti { length = size; name = name; pieces = hashes }, none)
  ]

  module _ (fuel : ℕ) (find_file : List Bytes → Option Bytes) where
    -- the end of `createMultiFileTorrentInfo`
    unfoldable pub hash_files : TorrentInfo → Outcome Bytes → Outcome (TorrentInfo × Option Error)
    hash_files ti (ok pieces) = ok (record ti { pieces = pieces }, none)
    hash_files ti (err e) = ok (ti, some e)
    hash_files ti panic = panic
    hash_files ti no_fuel = no_fuel

    -- `createMultiFileTorrentInfo`
    unfoldable pub create_multi_file_torrent_info :
        (name : Bytes) → Entries → TorrentInfo → Outcome (TorrentInfo × Option Error)
    unfolding get_torrent_files get_file_piece_hashes hash_files
    create_multi_file_torrent_info name es ti = elim (get_torrent_files es []) [
      | err e ↦ ok (ti, some e)
      | panic ↦ panic
      | no_fuel ↦ no_fuel
      | ok files ↦
          hash_files (record ti { files = files; name = name })
            (get_file_piece_hashes fuel (map (λ f. find_file f.path) files) ti.piece_length)
    ]

    -- `createTorrentInfo`, which drops the errors of both
    unfoldable pub create_torrent_info : Entry → (piece_length : ℕ) → Outcome TorrentInfo
    unfolding create_single_file_torrent_info create_multi_file_torrent_info
    create_torrent_info entry piece_length =
        let ti : TorrentInfo = record {
          name = [];
          length = 0;
          piece_length = piece_length;
          pieces = [];
          files = [];
        } in
        elim entry [
          | Entry.file name size ↦
              create_single_file_torrent_info (find_file []) name size ti >>= λ r. ok r.0
          | Entry.dir name es ↦ create_multi_file_torrent_info name es ti >>= λ r. ok r.0
        ]
