-- ===== src/Create/Paths.antt =====
-- The paths of the files that `getTorrentFiles` finds (pkg/torrent/util.go).
use torrent_client.Common.{
  ◌≡◌, refl, none, some, List, [], ◌∷◌, ◌++◌, Bytes, length, All, All-append,
}
use torrent_client.Common.Outcome.{Ensures, Ensures-bind}
use torrent_client.Create.{Entry, Entries, get_torrent_files, files_of_entry}
use torrent_client.Torrent.{TorrentFile}

-- The path is a single name.
abbrev pub IsFlat : TorrentFile → Type 0
IsFlat f = length f.path ≡ 1

mutual
  unfolding get_torrent_files

  files-IsFlat :
      (es : Entries) (file_path : List Bytes)
      → Ensures (All IsFlat) (get_torrent_files es file_path)
  files-IsFlat Entries.unreadable file_path = tt
  files-IsFlat Entries.nil file_path = tt
  files-IsFlat (Entries.cons e es) file_path =
      Ensures-bind (All IsFlat) (All IsFlat) _ _ (entry-IsFlat e file_path) (λ fs h.
        Ensures-bind (All IsFlat) (All IsFlat) _ _ (files-IsFlat es file_path)
          (λ rest h'. All-append IsFlat fs rest h h'))

  entry-IsFlat :
      (e : Entry) (file_path : List Bytes) → Ensures (All IsFlat) (files_of_entry e file_path)
  entry-IsFlat (Entry.file name none) file_path = tt
  entry-IsFlat (Entry.file name (some size)) file_path = (refl, tt)
  entry-IsFlat (Entry.dir name es) file_path = files-IsFlat es (file_path ++ (name ∷ []))

-- However deep a directory is, the path of each file that `getTorrentFiles` returns is a single
-- name: the names of the directories on the way are lost.
pub get_torrent_files-IsFlat :
    (es : Entries) (file_path : List Bytes) → Ensures (All IsFlat) (get_torrent_files es file_path)
get_torrent_files-IsFlat es file_path = files-IsFlat es file_path
