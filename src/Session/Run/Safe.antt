-- ===== src/Session/Run/Safe.antt =====
-- A session from its start to its end, over its turns (pkg/torrent/torrentsession.go).
use torrent_client.Tracker.{TorrentPeer}
use torrent_client.Common.{
  ℕ, ◌<◌, ◌≡◌, sym, ◌∙◌, inl, inr, true, List, [], ◌∷◌, arith, Bytes, length, get_elem?,
}
use torrent_client.Bitfield.{ThreadSafeBitfield, safe_has_piece}
use torrent_client.Common.Outcome.{ok, Yields, Yields-chain, Yields-both, Yields-at}
use torrent_client.Session.{got_all_pieces}
use torrent_client.Session.Pieces.{got_all_pieces_iff}
use torrent_client.Session.Machine.{Session, Reach}
use torrent_client.Session.Machine.Download.{session_safe, start-IsTracked}
use torrent_client.Session.Machine.Storing.{Multi}
use torrent_client.Session.Machine.Tracking.{IsTracked, Reach-IsTracked, Reach-keeps}
use torrent_client.Session.Run.{
  Scheduler, at_start, finished, System, schedule_turn, worker_turn, start_turn, Choice, schedule,
  work, start, turn, run, start_system,
}
use torrent_client.Session.Run.Finished.{
  schedule_turn-Leaves, Rests, Leaves, worker_turn-Rests, start_turn-Rests, is_finished,
}
use torrent_client.Session.Run.Refines.{Coherent, Runs, turn-Runs, run-Reach, start-Coherent}
use torrent_client.Session.Startup.{initialize_bit_field}
use torrent_client.Session.Startup.Verified.{on_disk, found}
use torrent_client.Storage.{Disk}
use torrent_client.Storage.Layout.{HasFiles}
use torrent_client.Torrent.{TorrentFile, TorrentInfo, get_num_pieces}

finished_is : (p : Scheduler) → p ≡ finished → is_finished p ≡ true
finished_is p e = rw e

module _ (sha1 : Bytes → Bytes) (place : TorrentFile → ℕ) (path : ℕ) (ti : TorrentInfo)
    (fuel rounds : ℕ) (peer_id info_hash : Bytes) (m : Multi place ti)
    (some_piece : 0 < get_num_pieces ti) where
  -- The session is coherent and tracked, and where the scheduler has left its loop, all is there.
  record IsDone (y : System) : Type 0 where
    coherent : Coherent sha1 place path ti fuel rounds y
    tracked : IsTracked sha1 place path ti m y.session
    done : y.scheduler ≡ finished → got_all_pieces ti y.session.piece_bit_field ≡ true

  -- What is all there stays so.
  keeps_all :
      {s t : Session}
      → IsTracked sha1 place path ti m s
      → Reach sha1 place path ti s t
      → got_all_pieces ti s.piece_bit_field ≡ true
      → got_all_pieces ti t.piece_bit_field ≡ true
  keeps_all {s} {t} v r all = (got_all_pieces_iff ti t.piece_bit_field).1 (λ k lt.
      Reach-keeps sha1 place path ti m some_piece v r k
        ((got_all_pieces_iff ti s.piece_bit_field).0 all k lt))

  rests :
      (y z : System)
      → IsDone y
      → Runs sha1 place path ti fuel rounds y z
      → z.scheduler ≡ y.scheduler
      → IsDone z
  rests y z d r e = record {
    coherent = r.coherent;
    tracked = Reach-IsTracked sha1 place path ti m some_piece d.tracked r.reach;
    done = λ f. keeps_all d.tracked r.reach (d.done (sym e ∙ f));
  }

  scheduled-IsDone :
      (y : System)
      → IsDone y
      → (r : Scheduler × Session) → Leaves ti y.scheduler r
      → Runs sha1 place path ti fuel rounds y (record y { scheduler = r.0; session = r.1 })
      → IsDone (record y { scheduler = r.0; session = r.1 })
  scheduled-IsDone y d r leaves runs = record {
    coherent = runs.coherent;
    tracked = Reach-IsTracked sha1 place path ti m some_piece d.tracked runs.reach;
    done = λ f. elim leaves [
      | inl goes ↦ let e = finished_is (r.0) f in absurd (ground arith)
      | inr (inl before) ↦ keeps_all d.tracked runs.reach (d.done before)
      | inr (inr all) ↦ all
    ];
  }

  turn-IsDone :
      (y : System) (c : Choice)
      → IsDone y
      → Yields IsDone (turn sha1 place path ti fuel rounds peer_id info_hash y c)
  unfolding turn
  turn-IsDone y schedule d =
      scheduled-IsDone y d (schedule_turn ti y.scheduler y.session)
        (schedule_turn-Leaves ti y.scheduler y.session)
        (turn-Runs sha1 place path ti fuel rounds peer_id info_hash y schedule d.coherent)
  turn-IsDone y (work i) d =
      Yields-both (Runs sha1 place path ti fuel rounds y) (Rests sha1 place path ti fuel rounds y)
        IsDone (worker_turn sha1 place path ti fuel rounds y i (get_elem? y.workers i))
        (λ z runs e. rests y z d runs e)
        (turn-Runs sha1 place path ti fuel rounds peer_id info_hash y (work i) d.coherent)
        (worker_turn-Rests sha1 place path ti fuel rounds y i (get_elem? y.workers i))
  turn-IsDone y (start dial) d =
      Yields-both (Runs sha1 place path ti fuel rounds y) (Rests sha1 place path ti fuel rounds y)
        IsDone (start_turn sha1 place path ti fuel rounds peer_id info_hash y dial y.peers)
        (λ z runs e. rests y z d runs e)
        (turn-Runs sha1 place path ti fuel rounds peer_id info_hash y (start dial) d.coherent)
        (start_turn-Rests sha1 place path ti fuel rounds peer_id info_hash y dial y.peers)

  run-IsDone :
      (y : System) (cs : List Choice)
      → IsDone y
      → Yields IsDone (run sha1 place path ti fuel rounds peer_id info_hash y cs)
  unfolding run
  run-IsDone y [] d = d
  run-IsDone y (c ∷ cs) d =
      Yields-chain IsDone IsDone (turn sha1 place path ti fuel rounds peer_id info_hash y c) _
        (turn-IsDone y c d) (λ y' d'. run-IsDone y' cs d')

module _ (sha1 : Bytes → Bytes) (place : TorrentFile → ℕ) (path : ℕ) (ti : TorrentInfo)
    (fuel rounds : ℕ) (peer_id info_hash : Bytes) (m : Multi place ti) (d : Disk)
    (has : HasFiles place d ti.files) (some_file : 0 < length ti.files)
    (some_piece : 0 < get_num_pieces ti) (bf : ThreadSafeBitfield)
    (initial : initialize_bit_field sha1 ti (found sha1 place d ti ti.files) ≡ ok bf)
    (peers : List TorrentPeer) (turns : List Choice) (y : System)
    (runs : run sha1 place path ti fuel rounds peer_id info_hash (start_system d bf peers) turns
      ≡ ok y) where
  -- A download over whole rounds of the goroutines, with peers that send anything at any time, is
  -- right: after any turns of `StartSession` that come to their end, each piece that is marked is on
  -- the disk with the hash that the torrent gives. The torrent has several files, which are on the
  -- disk with their lengths and at different places, a positive piece length, a piece or more and a
  -- hash for each piece; the session starts with the bitfield of the check at its start.
  pub run_safe :
      (i : ℕ)
      → i < get_num_pieces ti
      → safe_has_piece y.session.piece_bit_field i ≡ true
      → on_disk sha1 place y.session.disk ti i ≡ true
  run_safe =
      session_safe sha1 place path ti m d has some_file some_piece bf initial
        (run-Reach sha1 place path ti fuel rounds peer_id info_hash d bf peers turns y runs)

  -- For the same torrents and from the same start: when `scheduleWork` has returned, and at any
  -- time after it, the disk holds each piece of the torrent with its hash.
  pub download_complete :
      y.scheduler ≡ finished
      → (i : ℕ) → i < get_num_pieces ti
      → on_disk sha1 place y.session.disk ti i ≡ true
  download_complete f i lt =
      let Done = IsDone sha1 place path ti fuel rounds peer_id info_hash m some_piece in
      let begin = start_system d bf peers in
      let fresh : Done begin = record {
        coherent = start-Coherent sha1 place path ti fuel rounds peer_id info_hash d bf peers;
        tracked = start-IsTracked sha1 place path ti m d has some_file some_piece bf initial;
        done = λ e. let no = finished_is at_start e in absurd (ground arith);
      } in
      let end =
        Yields-at Done _ y
          (run-IsDone sha1 place path ti fuel rounds peer_id info_hash m some_piece begin turns
            fresh)
          runs in
      run_safe i lt ((got_all_pieces_iff ti y.session.piece_bit_field).0 (end.done f) i lt)
