-- ===== src/Session/Machine/Safety.antt =====
-- The pieces that a session has marked, and what the disk holds of them
-- (pkg/torrent/torrentsession.go).
use torrent_client.Common.{
  ℕ, ◌<◌, ◌≡◌, refl, ◌∙◌, Bool, true, false, ◌||◌, Option, none, some, List, [], ◌∷◌, ◌++◌, arith,
  ◌==◌, Bytes, All, All-append,
}
use torrent_client.Bitfield.{ThreadSafeBitfield, safe_has_piece, set_piece}
use torrent_client.Bitfield.Bytewise.{IsByte}
use torrent_client.Bitfield.Laws.{has_piece-set, set_bit_field_piece-IsByte}
use torrent_client.Session.Machine.{
  scheduler, worker, Session, Step, take_failed, pick_piece, send_work, take_work, no_work,
  fail_piece, store_piece, Reach, here, next,
}
use torrent_client.Session.Startup.Verified.{on_disk}
use torrent_client.Storage.{Disk}
use torrent_client.Storage.Layout.{HasFiles}
use torrent_client.Torrent.{TorrentFile, TorrentInfo, get_num_pieces}
use torrent_client.Session.Machine.Storing.{Multi, Stored, finish_piece-Stored}

module _ (sha1 : Bytes → Bytes) (place : TorrentFile → ℕ) (path : ℕ) (ti : TorrentInfo) where
  abbrev pub InTorrent : List ℕ → Type 0
  InTorrent = All (λ k. k < get_num_pieces ti)

  abbrev pub HandInTorrent : Option ℕ → Type 0
  HandInTorrent none = Unit
  HandInTorrent (some k) = k < get_num_pieces ti

  -- The files are there, and each marked piece is right.
  pub record Marked (disk : Disk) (bf : ThreadSafeBitfield) : Type 0 where
    pub has : HasFiles place disk ti.files
    pub right :
        (i : ℕ)
        → i < get_num_pieces ti
        → safe_has_piece bf i ≡ true
        → on_disk sha1 place disk ti i ≡ true
    pub bytes : All IsByte bf.bitfield

  -- Every index that goes round is one of the torrent's.
  pub record IsSound (s : Session) : Type 0 where
    pub marked : Marked s.disk s.piece_bit_field
    pub work : InTorrent s.work_chan
    pub failed : InTorrent s.failed_work_chan
    pub hand : HandInTorrent s.hand
    pub busy : InTorrent s.busy

  All-split :
      (P : ℕ → Type 0) (xs : List ℕ) (k : ℕ) (ys : List ℕ)
      → All P (xs ++ (k ∷ ys))
      → P k × All P (xs ++ ys)
  All-split P [] k ys h = h
  All-split P (x ∷ xs) k ys h = let r = All-split P xs k ys h.1 in (r.0, (h.0, r.1))

  module _ (m : Multi place ti) where
    mark :
        (bf : ThreadSafeBitfield) (k i : ℕ)
        → All IsByte bf.bitfield
        → safe_has_piece (set_piece bf k) i ≡ true
        → (k == i || safe_has_piece bf i) ≡ true
    unfolding safe_has_piece set_piece
    mark bf k i bytes h = let e = has_piece-set bf.bitfield k i bytes in ground arith

    keeps :
        (k i : ℕ) (there marked : Bool)
        → (k == i || marked) ≡ true
        → (marked ≡ true → there ≡ true)
        → (i == k || there) ≡ true
    keeps k i there true h f = let t = f refl in ground arith
    keeps k i there false h f = ground arith

    Stored-Marked :
        (s : Session) (k : ℕ) (piece : Bytes) (s' : Session)
        (st : Stored sha1 place path ti s k piece s')
        → Marked s.disk s.piece_bit_field
        → Marked st.disk (set_piece s.piece_bit_field k)
    Stored-Marked s k piece s' st v = record {
      has = st.has;
      right = λ i lt h.
          st.pieces i lt
          ∙ keeps k i (on_disk sha1 place s.disk ti i) (safe_has_piece s.piece_bit_field i)
              (mark s.piece_bit_field k i v.bytes h) (v.right i lt);
      bytes = unfold set_piece in set_bit_field_piece-IsByte s.piece_bit_field.bitfield k v.bytes;
    }

    held : {h : Option ℕ} (k : ℕ) → h ≡ some k → HandInTorrent h → k < get_num_pieces ti
    held k e h = rw e at h

    head :
        {l : List ℕ} (k : ℕ) (rest : List ℕ)
        → l ≡ k ∷ rest
        → InTorrent l
        → (k < get_num_pieces ti) × InTorrent rest
    head k rest e h = rw e at h

    pub split :
        {l : List ℕ} (before : List ℕ) (k : ℕ) (after : List ℕ)
        → l ≡ before ++ (k ∷ after)
        → InTorrent l
        → (k < get_num_pieces ti) × InTorrent (before ++ after)
    split before k after e h = All-split _ before k after (rw e at h)

    stores :
        (s : Session) (before : List ℕ) (k : ℕ) (after : List ℕ) (piece : Bytes) (s' : Session)
        → Stored sha1 place path ti s k piece s'
        → IsSound s
        → InTorrent (before ++ after)
        → IsSound (record s' { busy = before ++ after })
    stores s before k after piece s' st v h = rw (st.is) (record {
      marked = Stored-Marked s k piece s' st v.marked;
      work = v.work;
      failed = v.failed;
      hand = v.hand;
      busy = h;
    })

    pub Step-IsSound :
        {s t : Session}
        → 0 < get_num_pieces ti
        → Step sha1 place path ti s t
        → IsSound s
        → IsSound t
    Step-IsSound some_piece (scheduler (take_failed k rest e free)) v =
        let (lt, others) = head k rest e v.failed in
        record { marked = v.marked; work = v.work; failed = others; hand = lt; busy = v.busy }
    Step-IsSound some_piece (scheduler (pick_piece k e lt free)) v = record {
      marked = v.marked;
      work = v.work;
      failed = v.failed;
      hand = lt;
      busy = v.busy;
    }
    Step-IsSound {s} some_piece (scheduler (send_work k e room)) v = record {
      marked = v.marked;
      work = All-append _ s.work_chan (k ∷ []) v.work (held k e v.hand, tt);
      failed = v.failed;
      hand = tt;
      busy = v.busy;
    }
    Step-IsSound some_piece (worker (take_work k rest e)) v =
        let (lt, others) = head k rest e v.work in
        record {
          marked = v.marked;
          work = others;
          failed = v.failed;
          hand = v.hand;
          busy = (lt, v.busy);
        }
    Step-IsSound some_piece (worker (no_work e)) v = record {
      marked = v.marked;
      work = v.work;
      failed = v.failed;
      hand = v.hand;
      busy = (some_piece, v.busy);
    }
    Step-IsSound {s} some_piece (worker (fail_piece before k after e room)) v =
        let (lt, others) = split before k after e v.busy in
        record {
          marked = v.marked;
          work = v.work;
          failed = All-append _ s.failed_work_chan (k ∷ []) v.failed (lt, tt);
          hand = v.hand;
          busy = others;
        }
    Step-IsSound {s} some_piece (worker (store_piece before k after piece s' e size run)) v =
        let (lt, others) = split before k after e v.busy in
        stores s before k after piece s'
          (finish_piece-Stored sha1 place path ti m s k piece s' lt size v.marked.has run) v others

    pub Reach-IsSound :
        {s t : Session}
        → 0 < get_num_pieces ti
        → IsSound s
        → Reach sha1 place path ti s t
        → IsSound t
    Reach-IsSound some_piece h here = h
    Reach-IsSound some_piece h (next r st) =
        Step-IsSound some_piece st (Reach-IsSound some_piece h r)
