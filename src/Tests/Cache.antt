-- ===== src/Tests/Cache.antt =====
-- The cache over the two files of the storage tests.
use torrent_client.Common.{refl, [], arith, codes}
use torrent_client.Torrent.{TorrentInfo, sum_lengths, get_total_length, get_num_pieces}
use torrent_client.Cache.{new_piece_cache, piece_size, get_piece}
use torrent_client.Cache.Valid.{IsValid}
use torrent_client.Cache.Transparent.{Serves, get_piece-Serves}
use torrent_client.Tests.Storage.{
  two_files, place_of, sample_disk, sample_HasFiles, sample_Distinct,
}

abbrev pub sample_info : TorrentInfo
sample_info = record {
  name = codes "t";
  length = 0;
  piece_length = 4;
  pieces = [];
  files = two_files;
}

pub empty-IsValid : IsValid (new_piece_cache sample_info)
unfolding new_piece_cache
empty-IsValid = record {
  keys = λ k. refl;
  pieces_nodup = tt;
  list_nodup = tt;
  same_length = refl;
  bounded = omega arith;
}

get_piece-Serves_example :
    Serves place_of sample_disk
      (new_piece_cache sample_info)
      1
      (get_piece place_of 4 sample_disk (new_piece_cache sample_info) 1)
unfolding new_piece_cache sum_lengths get_total_length get_num_pieces piece_size
get_piece-Serves_example =
    get_piece-Serves place_of sample_disk 4 (new_piece_cache sample_info) 1 empty-IsValid tt
      (omega arith) (omega arith) refl (omega arith) (omega arith) sample_Distinct sample_HasFiles
