-- ===== src/Tests/Create.antt =====
-- A torrent of the two files of the storage tests, and of a directory.
use torrent_client.Common.{
  ◌≡◌, true, some, [], ◌++◌, map, arith, Bytes, codes, length, replicate, length-append, All,
  length-take,
}
use torrent_client.Bitfield.{ThreadSafeBitfield}
use torrent_client.Common.Outcome.{ok, Ensures}
use torrent_client.Create.{Entries, Entry, get_file_piece_hashes, get_torrent_files}
use torrent_client.Create.Paths.{IsFlat, get_torrent_files-IsFlat}
use torrent_client.Create.Seeding.{created, get_file_piece_hashes-seeds}
use torrent_client.Session.{got_all_pieces}
use torrent_client.Session.Startup.{initialize_bit_field}
use torrent_client.Tests.Machine.{pad}
use torrent_client.Tests.Storage.{two_files, place_of, sample_disk, sample_HasFiles}
use torrent_client.Torrent.{sum_lengths}

length-pad : (b : Bytes) → length (pad b) ≡ 20
length-pad b = omega (arith, length-take 20 (b ++ replicate 20 0), length-append b (replicate 20 0))

get_file_piece_hashes-seeds_example :
    (hashes : Bytes) × (get_file_piece_hashes pad 9
        (map (λ f. sample_disk (place_of f)) two_files)
        4
      ≡ ok hashes)
    × (bf : ThreadSafeBitfield) × (initialize_bit_field pad
          (created pad length-pad place_of sample_disk (codes "t") 4 two_files hashes)
          (map (λ f. sample_disk (place_of f)) two_files)
        ≡ ok bf)
    × (got_all_pieces
          (created pad length-pad place_of sample_disk (codes "t") 4 two_files hashes)
          bf
        ≡ true)
unfolding sum_lengths
get_file_piece_hashes-seeds_example =
    get_file_piece_hashes-seeds pad length-pad place_of sample_disk (codes "t") 4 two_files
      (omega arith) (omega arith) sample_HasFiles 9 (omega arith)

-- a directory with a file, in a directory
abbrev nested : Entries
nested =
    Entries.cons
      (Entry.dir (codes "d") (Entries.cons (Entry.file (codes "f") (some 3)) Entries.nil))
      Entries.nil

get_torrent_files-IsFlat_example : Ensures (All IsFlat) (get_torrent_files nested [])
get_torrent_files-IsFlat_example = get_torrent_files-IsFlat nested []
