-- ===== src/Session/Startup/Directories/Deep.antt =====
-- A torrent with files below more than one directory of its own (pkg/util/file.go).
use torrent_client.Common.{◌≡◌, ◌∙◌, none, some, List, [], ◌∷◌, Bytes}
use torrent_client.Common.Outcome.{panic}
use torrent_client.Session.Startup.Directories.{
  Stat, dir, Tree, parent, walk, stat, does_exist, mkdir, create_dir, need_dir, need_file,
  need_files, make_tree,
}
use torrent_client.Session.Startup.Directories.Entries.{IsFree}
use torrent_client.Session.Startup.Directories.Laws.{HasTop, begin}

module _ (data_dir name : Bytes) where
  stat_below :
      (t : Tree) (a : Bytes) (p : List Bytes)
      → HasTop data_dir name t
      → t (data_dir ∷ name ∷ a ∷ []) ≡ none
      → stat t (data_dir ∷ name ∷ a ∷ p) ≡ Stat.not_exist
  unfolding stat walk
  stat_below t a [] h free = rw (walk, h.root, walk, h.middle, walk, h.top, free)
  stat_below t a (b ∷ p) h free = rw (walk, h.root, walk, h.middle, walk, h.top, walk, free)

  need_file-panic :
      (t : Tree) (a b x : Bytes) (p : List Bytes)
      → HasTop data_dir name t
      → t (data_dir ∷ name ∷ a ∷ []) ≡ none
      → need_file t (data_dir ∷ name ∷ a ∷ b ∷ x ∷ p) ≡ panic
  unfolding need_file need_dir does_exist create_dir mkdir parent
  need_file-panic t a b x p h free =
      let below = λ (q : List Bytes). stat_below t a q h free in
      rw (
        need_file,
        does_exist,
        below (b ∷ x ∷ p),
        need_dir,
        does_exist,
        below (b ∷ parent (x ∷ p)),
        mkdir,
        below (parent (b ∷ parent (x ∷ p))),
      )

-- A torrent whose first file stands below two directories of its own, neither of which is there,
-- cannot be downloaded: `initialize` panics, whatever files come behind it. (`CreateDir` makes the
-- last directory of a path only.)
pub make_tree-panic :
    (data_dir name : Bytes) (t : Tree) (a b x : Bytes) (p : List Bytes) (paths : List (List Bytes))
    → t [] ≡ some dir
    → IsFree t (data_dir ∷ [])
    → IsFree t (data_dir ∷ name ∷ [])
    → t (data_dir ∷ name ∷ a ∷ []) ≡ none
    → make_tree data_dir name t ((a ∷ b ∷ x ∷ p) ∷ paths) ≡ panic
unfolding make_tree need_files
make_tree-panic data_dir name t a b x p paths root data_free top_free free =
    let s = begin data_dir name t root data_free top_free in
    rw (
      s.makes_data,
      s.makes_top,
      need_file-panic data_dir name s.after_top a b x p s.has (s.below a [] ∙ free),
    )
