-- ===== src/Session/Machine/Download.antt =====
-- A session from its start on.
use torrent_client.Common.{ℕ, ◌<◌, ◌≡◌, sym, ◌∙◌, true, false, arith, Bytes, length}
use torrent_client.Bitfield.{ThreadSafeBitfield, safe_has_piece}
use torrent_client.Cache.{contains}
use torrent_client.Common.Outcome.{Outcome, ok}
use torrent_client.Session.{got_all_pieces}
use torrent_client.Session.Pieces.{got_all_pieces_iff}
use torrent_client.Session.Machine.{Session, Reach, start_session}
use torrent_client.Session.Machine.Storing.{Multi, total-Multi}
use torrent_client.Session.Machine.Tracking.{IsTracked, Reach-IsTracked, under_way}
use torrent_client.Session.Startup.{initialize_bit_field}
use torrent_client.Session.Startup.Verified.{on_disk, found, initialize_bit_field-on_disk}
use torrent_client.Storage.{Disk}
use torrent_client.Storage.Layout.{HasFiles}
use torrent_client.Torrent.{TorrentFile, TorrentInfo, get_num_pieces}

module _ (sha1 : Bytes → Bytes) (place : TorrentFile → ℕ) (path : ℕ) (ti : TorrentInfo)
    (m : Multi place ti) (d : Disk) (has : HasFiles place d ti.files)
    (some_file : 0 < length ti.files) (some_piece : 0 < get_num_pieces ti) (bf : ThreadSafeBitfield)
    (initial : initialize_bit_field sha1 ti (found sha1 place d ti ti.files) ≡ ok bf) where
  pub start-IsTracked : IsTracked sha1 place path ti m (start_session d bf)
  unfolding contains
  start-IsTracked =
      let (bf', finds, right, bytes, wide) =
        initialize_bit_field-on_disk sha1 place d ti (m.cut) (total-Multi place ti m) (m.hashes)
          some_file has in
      let same : bf ≡ bf' = equal bf bf' (sym initial ∙ finds) in
      rw same (record {
        sound = record {
          marked = record { has = has; right = λ i lt h. sym (right i lt) ∙ h; bytes = bytes };
          work = tt;
          failed = tt;
          hand = tt;
          busy = tt;
        };
        wide = wide;
        tracked = λ i lt. ground arith;
      })
    where
      equal :
          (a b : ThreadSafeBitfield) → ◌≡◌ {A = Outcome ThreadSafeBitfield} (ok a) (ok b) → a ≡ b
      equal a b e = cc

  -- In every state that the session gets to, whatever the peers send and in whatever order the
  -- goroutines run, each piece that is marked is on the disk with the hash that the torrent gives.
  -- The torrent has several files, which are on the disk with their lengths and at different
  -- places, a positive piece length, a piece or more and a hash for each piece; the session starts
  -- with the bitfield of the check at its start.
  pub session_safe :
      {s : Session}
      → Reach sha1 place path ti (start_session d bf) s
      → (i : ℕ) → i < get_num_pieces ti
      → safe_has_piece s.piece_bit_field i ≡ true
      → on_disk sha1 place s.disk ti i ≡ true
  session_safe r i lt h =
      (Reach-IsTracked sha1 place path ti m some_piece start-IsTracked r).sound.marked.right i lt h

  -- For the same torrents and from the same start, no piece gets lost: in every state that the
  -- session gets to, a piece that is scheduled and not marked is about to be sent to the
  -- goroutines, in one of the two channels, or with a goroutine.
  pub session_keeps_work :
      {s : Session}
      → Reach sha1 place path ti (start_session d bf) s
      → (i : ℕ) → i < get_num_pieces ti
      → contains i s.scheduled ≡ true
      → safe_has_piece s.piece_bit_field i ≡ false
      → under_way s i ≡ true
  session_keeps_work r i lt scheduled missing =
      let t = (Reach-IsTracked sha1 place path ti m some_piece start-IsTracked r).tracked i lt in
      ground arith

  -- For the same torrents and from the same start, `scheduleWork` ends, with all pieces marked,
  -- only when the disk holds each piece of the torrent with its hash.
  pub session_complete :
      {s : Session}
      → Reach sha1 place path ti (start_session d bf) s
      → got_all_pieces ti s.piece_bit_field ≡ true
      → (i : ℕ) → i < get_num_pieces ti
      → on_disk sha1 place s.disk ti i ≡ true
  session_complete {s} r all i lt =
      session_safe r i lt ((got_all_pieces_iff ti s.piece_bit_field).0 all i lt)
