-- ===== src/Session/Startup/Directories.antt =====
-- The directories that a session makes at its start: `DoesExist`, `CreateDir` and the first part of
-- `CreateEmptyFile` in pkg/util/file.go, and `initialize` of pkg/torrent/torrentsession.go, for a
-- torrent of several files, as far as it makes them. A path is the list of its parts, from the
-- directory that holds that of the data; a part is no `.`, no `..`, and has no separator. The tree says
-- what stands at a path; permissions and disks that are full are left out.
pub mod Entries
pub mod Laws
pub mod Deep
use torrent_client.Common.{
  Bool, true, false, ◌&&◌, Option, none, some, List, [], ◌∷◌, ◌++◌, if◌then◌else◌, Bytes,
}
use torrent_client.Bencode.Value.{eq_bytes}
use torrent_client.Common.Outcome.{Outcome, ok, panic, ◌>>=◌}

pub data Entry : Type 0 where
  file dir : Entry

abbrev pub Tree : Type 0
Tree = List Bytes → Option Entry

unfoldable pub eq_parts : (p q : List Bytes) → Bool
unfolding eq_bytes
eq_parts [] [] = true
eq_parts [] (b ∷ q) = false
eq_parts (a ∷ p) [] = false
eq_parts (a ∷ p) (b ∷ q) = eq_bytes a b && eq_parts p q

-- the tree with another entry at the path
unfoldable pub put_entry : Tree → List Bytes → Option Entry → Tree
unfolding eq_parts
put_entry t p e q = if eq_parts p q then e else t q

-- `filepath.Split`, its first part
unfoldable pub parent : List Bytes → List Bytes
parent [] = []
parent (a ∷ []) = []
parent (a ∷ b ∷ p) = a ∷ parent (b ∷ p)

-- What `os.Stat` finds: an entry, `ErrNotExist`, or another error, where a file stands on the way.
pub data Stat : Type 0 where
  found : Entry → Stat
  not_exist failed : Stat

abbrev pub stat_of : Option Entry → Stat
stat_of none = not_exist
stat_of (some e) = found e

-- the walk from `at` along the parts
unfoldable pub walk : Tree → (at p : List Bytes) → Stat
walk t at [] = stat_of (t at)
walk t at (a ∷ p) = elim (t at) [
  | none ↦ not_exist
  | some file ↦ failed
  | some dir ↦ walk t (at ++ (a ∷ [])) p
]

-- `os.Stat`
unfoldable pub stat : Tree → List Bytes → Stat
unfolding walk
stat t p = walk t [] p

-- `DoesExist`
unfoldable pub does_exist : Tree → List Bytes → Bool
unfolding stat
does_exist t p = elim (stat t p) [ found e ↦ true | not_exist ↦ false | failed ↦ true ]

-- `os.Mkdir`; `none` is its error.
unfoldable pub mkdir : Tree → List Bytes → Option Tree
unfolding stat put_entry parent
mkdir t p = elim (stat t (parent p)) [
  | found dir ↦ elim (t p) [ none ↦ some (put_entry t p (some dir)) | some e ↦ none ]
  | _ ↦ none
]

-- `panic(err)` on an error
abbrev pub or_panic : Option Tree → Outcome Tree
or_panic none = panic
or_panic (some t) = ok t

-- `CreateDir`: a file of that name is removed.
unfoldable pub create_dir : Tree → List Bytes → Outcome Tree
unfolding stat mkdir put_entry
create_dir t p = elim (stat t p) [
  | found dir ↦ ok t
  | found file ↦ or_panic (mkdir (put_entry t p none) p)
  | not_exist ↦ or_panic (mkdir t p)
  | failed ↦ or_panic (mkdir t p)
]

-- `os.Create`; `none` is its error.
unfoldable pub create : Tree → List Bytes → Option Tree
unfolding stat put_entry parent
create t p = elim (stat t (parent p)) [
  | found dir ↦ elim (t p) [ some dir ↦ none | _ ↦ some (put_entry t p (some file)) ]
  | _ ↦ none
]

-- `if !DoesExist(dir) { CreateDir(dir) }`
unfoldable pub need_dir : Tree → List Bytes → Outcome Tree
unfolding does_exist create_dir
need_dir t p = if does_exist t p then ok t else create_dir t p

-- `initializeFile`, where an error of `CreateEmptyFile` panics
unfoldable pub need_file : Tree → List Bytes → Outcome Tree
unfolding does_exist need_dir create parent
need_file t p =
    if does_exist t p then ok t else need_dir t (parent p) >>= λ t'. or_panic (create t' p)

-- the loop over the files
unfoldable pub need_files : (top : List Bytes) → Tree → List (List Bytes) → Outcome Tree
unfolding need_file
need_files top t [] = ok t
need_files top t (p ∷ ps) = need_file t (top ++ p) >>= λ t'. need_files top t' ps

-- `initialize` with the paths of the files, for the directory with the data
unfoldable pub make_tree : (data_dir name : Bytes) → Tree → List (List Bytes) → Outcome Tree
unfolding create_dir need_dir need_files
make_tree data_dir name t paths = do
  t' ← create_dir t (data_dir ∷ [])
  t'' ← need_dir t' (data_dir ∷ name ∷ [])
  need_files (data_dir ∷ name ∷ []) t'' paths
