-- ===== src/Tests/Machine.antt =====
-- A session of the torrent of the storage tests: its first piece is there, the second one is
-- downloaded. In place of SHA-1 the tests pad a piece to 20 bytes.
use torrent_client.Common.{
  ◌≡◌, refl, inl, inr, Bool, true, none, some, [], ◌∷◌, ◌++◌, arith, ◌==◌, if◌then◌else◌, Bytes,
  codes, take, replicate,
}
use torrent_client.Bitfield.{new_thread_safe_bitfield, ThreadSafeBitfield, safe_has_piece}
use torrent_client.Cache.{piece_size, contains}
use torrent_client.Common.Outcome.{Outcome, ok}
use torrent_client.Session.Machine.{
  scheduler, worker, next_piece, finish_piece, Session, Reach, here, next, start_session,
  store_piece, take_work, send_work, pick_piece,
}
use torrent_client.Session.Machine.Download.{session_safe, session_keeps_work}
use torrent_client.Session.Machine.Initial.{Starts, initialize-Starts}
use torrent_client.Session.Machine.Storing.{Multi}
use torrent_client.Session.Machine.Tracking.{under_way}
use torrent_client.Session.Startup.{initialize_bit_field}
use torrent_client.Session.Startup.Verified.{on_disk, found, Finds, initialize_bit_field-on_disk}
use torrent_client.Storage.{Disk}
use torrent_client.Torrent.{TorrentInfo, get_num_pieces, get_total_length, sum_lengths}
use torrent_client.Tests.Storage.{
  two_files, place_of, sample_disk, sample_HasFiles, sample_Distinct,
}

abbrev pub pad : Bytes → Bytes
pad b = take 20 (b ++ replicate 20 0)

abbrev pub session_info : TorrentInfo
session_info = record {
  name = codes "t";
  length = 0;
  piece_length = 4;
  pieces = pad (codes "abcd") ++ pad (codes "wxyz");
  files = two_files;
}

pub session-Multi : Multi place_of session_info
unfolding get_total_length get_num_pieces sum_lengths
session-Multi = record {
  several = refl;
  cut = omega arith;
  hashes = omega arith;
  apart = sample_Distinct;
}

abbrev pub first_only : ThreadSafeBitfield
first_only = record { bitfield = 128 ∷ []; spare = [] }

pub finds_first :
    initialize_bit_field pad session_info (found pad place_of sample_disk session_info two_files)
    ≡ ok first_only
unfolding initialize_bit_field get_total_length new_thread_safe_bitfield
finds_first = refl

initialize_bit_field-on_disk_example :
    Finds pad place_of sample_disk session_info (
      initialize_bit_field pad session_info (found pad place_of sample_disk session_info two_files))
unfolding get_total_length get_num_pieces sum_lengths
initialize_bit_field-on_disk_example =
    initialize_bit_field-on_disk pad place_of sample_disk session_info (omega arith) refl
      (omega arith) (omega arith) sample_HasFiles

abbrev new_disk : Disk
new_disk k = if k == 3 then some (codes "abc") else if k == 5 then some (codes "dwxyz") else none

abbrev started : Session
started = start_session sample_disk first_only

-- `scheduleWork` has found the second piece.
abbrev picked : Session
picked = record started { scheduled = 1 ∷ []; hand = some 1 }

abbrev sent : Session
sent = record picked { work_chan = 1 ∷ []; hand = none }

abbrev taken : Session
taken = record sent { work_chan = []; busy = 1 ∷ [] }

-- The goroutine has the piece, verified and written.
abbrev written : Outcome (Session × Bool)
written = finish_piece pad place_of 0 session_info taken 1 (codes "wxyz")

abbrev written_session : Outcome (Session × Bool) → Session
written_session (ok r) = r.0
written_session _ = started

abbrev done : Session
done = record (written_session written) { busy = [] }

written-ok : written ≡ ok (written_session written, true)
unfolding finish_piece
written-ok = refl

run_taken : Reach pad place_of 0 session_info started taken
unfolding next_piece get_num_pieces get_total_length
run_taken =
    next
      (next (next here (scheduler (pick_piece 1 refl (omega arith) refl)))
        (scheduler (send_work 1 refl (omega arith))))
      (worker (take_work 1 [] refl))

run : Reach pad place_of 0 session_info started done
unfolding piece_size get_num_pieces get_total_length
run =
    next run_taken
      (worker (store_piece [] 1 [] (codes "wxyz") (written_session written) refl refl written-ok))

session_safe_example : on_disk pad place_of done.disk session_info 1 ≡ true
unfolding get_num_pieces get_total_length finish_piece safe_has_piece
session_safe_example =
    session_safe pad place_of 0 session_info session-Multi sample_disk sample_HasFiles (omega arith)
      (omega arith) first_only finds_first run 1 (omega arith) refl

session_keeps_work_example : under_way taken 1 ≡ true
unfolding get_num_pieces get_total_length contains safe_has_piece
session_keeps_work_example =
    session_keeps_work pad place_of 0 session_info session-Multi sample_disk sample_HasFiles
      (omega arith) (omega arith) first_only finds_first run_taken 1 (omega arith) refl refl

-- The second file is missing.
abbrev half_disk : Disk
half_disk k = if k == 3 then some (codes "abc") else none

initialize-Starts_example : Starts pad place_of 0 session_info half_disk
initialize-Starts_example =
    initialize-Starts pad place_of 0 session_info half_disk session-Multi (omega arith)
      (inr (record { content = codes "abc"; stored = refl; full = refl }), (inl refl, tt))
