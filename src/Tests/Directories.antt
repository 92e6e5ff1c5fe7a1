-- ===== src/Tests/Directories.antt =====
-- A client that starts with nothing but its own directory and the directory of the data.
use torrent_client.Common.{◌≡◌, refl, inl, inr, none, some, List, [], ◌∷◌, map, Bytes, codes}
use torrent_client.Common.Outcome.{panic}
use torrent_client.Session.Startup.Directories.{Tree, dir, make_tree}
use torrent_client.Session.Startup.Directories.Laws.{Made, make_tree-Made}
use torrent_client.Session.Startup.Directories.Deep.{make_tree-panic}

abbrev sample_tree : Tree
sample_tree [] = some dir
sample_tree (a ∷ []) = some dir
sample_tree (a ∷ b ∷ p) = none

abbrev two_names : List Bytes
two_names = codes "a" ∷ codes "b" ∷ []

make_tree-Made_example :
    Made
      (codes "data")
      (codes "t")
      sample_tree
      two_names
      (make_tree (codes "data") (codes "t") sample_tree (map (λ x. x ∷ []) two_names))
make_tree-Made_example =
    make_tree-Made (codes "data") (codes "t") sample_tree two_names refl (inr refl) (inl refl)

make_tree-panic_example :
    make_tree (codes "data") (codes "t") sample_tree ((codes "a" ∷ codes "b" ∷ codes "c" ∷ []) ∷ [])
    ≡ panic
make_tree-panic_example =
    make_tree-panic (codes "data") (codes "t") sample_tree (codes "a") (codes "b") (codes "c") [] []
      refl (inr refl) (inl refl) refl
