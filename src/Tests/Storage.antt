-- ===== src/Tests/Storage.antt =====
-- A torrent of two files with three and five bytes, and pieces of four bytes.
use torrent_client.Common.{
  ℕ, ◌*◌, ◌≡◌, refl, none, some, List, [], ◌∷◌, ◌++◌, arith, ◌==◌, if◌then◌else◌, codes, take, drop,
}
use torrent_client.Common.Outcome.{ok, no_fuel}
use torrent_client.Torrent.{TorrentFile, sum_lengths}
use torrent_client.Storage.{Disk, write_piece_to_files, get_piece_from_file, read_loop}
use torrent_client.Storage.Splice.{splice}
use torrent_client.Storage.Layout.{stream, HasFiles, Distinct}
use torrent_client.Storage.Write.{write_piece_to_files-splice}
use torrent_client.Storage.Read.{
  get_piece_from_file-stream, get_piece_from_file-write, read_loop_short,
}

abbrev pub first_file : TorrentFile
first_file = record { length = 3; path = codes "a" ∷ [] }

abbrev pub second_file : TorrentFile
second_file = record { length = 5; path = codes "b" ∷ [] }

abbrev pub two_files : List TorrentFile
two_files = first_file ∷ second_file ∷ []

abbrev pub place_of : TorrentFile → ℕ
place_of f = f.length

abbrev pub sample_disk : Disk
sample_disk k = if k == 3 then some (codes "abc") else if k == 5 then some (codes "defgh") else none

pub sample_HasFiles : HasFiles place_of sample_disk two_files
sample_HasFiles = (
  record { content = codes "abc"; stored = refl; full = refl },
  (record { content = codes "defgh"; stored = refl; full = refl }, tt),
)

pub sample_Distinct : Distinct place_of two_files
sample_Distinct = ((refl, tt), (tt, tt))

write_piece_to_files-splice_example :
    (d' : Disk) × (write_piece_to_files place_of two_files sample_disk 4 0 (codes "wxyz") ≡ ok d')
    × (stream place_of d' two_files
        ≡ splice (stream place_of sample_disk two_files) (0 * 4) (codes "wxyz"))
    × HasFiles place_of d' two_files
unfolding sum_lengths
write_piece_to_files-splice_example =
    write_piece_to_files-splice place_of two_files sample_disk 4 0 (codes "wxyz") (omega arith)
      sample_Distinct sample_HasFiles

get_piece_from_file-stream_example :
    get_piece_from_file place_of two_files 4 sample_disk 4 0 4
    ≡ ok (take 4 (drop (0 * 4) (stream place_of sample_disk two_files)), none)
unfolding sum_lengths
get_piece_from_file-stream_example =
    get_piece_from_file-stream place_of two_files 4 sample_disk 4 0 4 (omega arith) (omega arith)
      sample_Distinct sample_HasFiles

get_piece_from_file-write_example :
    (d' : Disk) × (write_piece_to_files place_of two_files sample_disk 4 0 (codes "wxyz") ≡ ok d')
    × (get_piece_from_file place_of two_files 4 d' 4 0 4 ≡ ok (codes "wxyz", none))
unfolding sum_lengths
get_piece_from_file-write_example =
    get_piece_from_file-write place_of two_files sample_disk 4 0 (codes "wxyz") (omega arith)
      sample_Distinct sample_HasFiles

-- The second file is cut short.
abbrev short_disk : Disk
short_disk k = if k == 3 then some (codes "abc") else some (codes "de")

read_loop_short_example :
    read_loop place_of (two_files ++ (first_file ∷ [])) 100 short_disk 5 3 (codes "de") ≡ no_fuel
unfolding sum_lengths
read_loop_short_example =
    read_loop_short place_of (first_file ∷ []) second_file (first_file ∷ []) short_disk (codes "de")
      (codes "de") 100 2 3 refl (omega arith) (omega arith) (omega arith)
