-- ===== src/Session/Machine/Tracking.antt =====
-- The pieces that are scheduled, and where they are on their way
-- (pkg/torrent/torrentsession.go).
use torrent_client.Common.{
  ℕ, ◌*◌, ◌≤◌, ◌<◌, ◌≡◌, refl, Bool, true, false, not, ◌||◌, Option, none, some, List, [], ◌∷◌,
  ◌++◌, arith, ◌==◌, Bytes, length, All,
}
use torrent_client.Bitfield.{ThreadSafeBitfield, safe_has_piece, set_piece}
use torrent_client.Bitfield.Laws.{has_piece-set, length-set_bit_field_piece}
use torrent_client.Bitfield.Bytewise.{IsByte}
use torrent_client.Cache.{contains}
use torrent_client.Cache.Valid.{contains-append}
use torrent_client.Session.Machine.{
  scheduler, worker, Session, Step, take_failed, pick_piece, send_work, take_work, no_work,
  fail_piece, store_piece, Reach, here, next,
}
use torrent_client.Session.Machine.Storing.{Multi, Stored, finish_piece-Stored}
use torrent_client.Session.Machine.Safety.{IsSound, Step-IsSound, split}
use torrent_client.Torrent.{TorrentFile, TorrentInfo, get_num_pieces}

abbrev pub in_hand : ℕ → Option ℕ → Bool
in_hand i none = false
in_hand i (some k) = k == i

-- Piece `i` is in the hand of the scheduler, in one of the channels, or with a goroutine.
unfoldable pub under_way : Session → ℕ → Bool
unfolding contains
under_way s i =
    in_hand i s.hand
    || (contains i s.work_chan || (contains i s.busy || contains i s.failed_work_chan))

-- A piece that is scheduled is marked or under way.
abbrev pub Tracked : Session → ℕ → Type 0
Tracked s i =
    (safe_has_piece s.piece_bit_field i || (not (contains i s.scheduled) || under_way s i)) ≡ true

module _ (sha1 : Bytes → Bytes) (place : TorrentFile → ℕ) (path : ℕ) (ti : TorrentInfo)
    (m : Multi place ti) where
  -- Each piece of the torrent is tracked, and has a bit.
  pub record IsTracked (s : Session) : Type 0 where
    pub sound : IsSound sha1 place path ti s
    pub wide : get_num_pieces ti ≤ 8 * length s.piece_bit_field.bitfield
    pub tracked : (i : ℕ) → i < get_num_pieces ti → Tracked s i

  marks :
      (bf : ThreadSafeBitfield) (k i : ℕ)
      → All IsByte bf.bitfield
      → k < 8 * length bf.bitfield
      → safe_has_piece (set_piece bf k) i ≡ (k == i || safe_has_piece bf i)
  unfolding safe_has_piece set_piece
  marks bf k i bytes h = let e = has_piece-set bf.bitfield k i bytes in ground arith

  store_Tracked :
      (s : Session) (before : List ℕ) (k : ℕ) (after : List ℕ) (piece : Bytes) (s' : Session)
      → Stored sha1 place path ti s k piece s'
      → s.busy ≡ before ++ (k ∷ after)
      → All IsByte s.piece_bit_field.bitfield
      → k < 8 * length s.piece_bit_field.bitfield
      → (i : ℕ) → Tracked s i
      → Tracked (record s' { busy = before ++ after }) i
  unfolding under_way contains
  store_Tracked s before k after piece s' st e bytes small i h =
      rw (st.is, marks s.piece_bit_field k i bytes small)
        (ground (arith, contains-append i before (k ∷ after), contains-append i before after))

  Step-Tracked :
      {s t : Session}
      → Step sha1 place path ti s t
      → IsSound sha1 place path ti s
      → get_num_pieces ti ≤ 8 * length s.piece_bit_field.bitfield
      → (i : ℕ) → i < get_num_pieces ti
      → Tracked s i
      → Tracked t i
  unfolding under_way contains
  Step-Tracked (scheduler (take_failed k rest e free)) v w i lt h = ground arith
  Step-Tracked (scheduler (pick_piece k e l free)) v w i lt h = ground arith
  Step-Tracked {s} (scheduler (send_work k e room)) v w i lt h =
      ground (arith, contains-append i s.work_chan (k ∷ []))
  Step-Tracked (worker (take_work k rest e)) v w i lt h = ground arith
  Step-Tracked (worker (no_work e)) v w i lt h = ground arith
  Step-Tracked {s} (worker (fail_piece before k after e room)) v w i lt h = ground (
    arith,
    contains-append i s.failed_work_chan (k ∷ []),
    contains-append i before (k ∷ after),
    contains-append i before after,
  )
  Step-Tracked {s} (worker (store_piece before k after piece s' e size run)) v w i lt h =
      let (l, others) = split sha1 place path ti m before k after e v.busy in
      store_Tracked s before k after piece s'
        (finish_piece-Stored sha1 place path ti m s k piece s' l size v.marked.has run) e
        v.marked.bytes (omega arith) i h

  -- The bitfield keeps its length.
  Step-wide :
      {s t : Session}
      → Step sha1 place path ti s t
      → IsSound sha1 place path ti s
      → length t.piece_bit_field.bitfield ≡ length s.piece_bit_field.bitfield
  Step-wide (scheduler (take_failed k rest e free)) v = refl
  Step-wide (scheduler (pick_piece k e l free)) v = refl
  Step-wide (scheduler (send_work k e room)) v = refl
  Step-wide (worker (take_work k rest e)) v = refl
  Step-wide (worker (no_work e)) v = refl
  Step-wide (worker (fail_piece before k after e room)) v = refl
  Step-wide {s} (worker (store_piece before k after piece s' e size run)) v =
      let (l, others) = split sha1 place path ti m before k after e v.busy in
      let st = finish_piece-Stored sha1 place path ti m s k piece s' l size v.marked.has run in
      rw (st.is) (unfold set_piece in length-set_bit_field_piece s.piece_bit_field.bitfield k)

  -- A piece that is marked stays so.
  Step-keeps :
      {s t : Session}
      → Step sha1 place path ti s t
      → IsTracked s
      → (i : ℕ) → safe_has_piece s.piece_bit_field i ≡ true
      → safe_has_piece t.piece_bit_field i ≡ true
  Step-keeps (scheduler (take_failed k rest e free)) v i h = h
  Step-keeps (scheduler (pick_piece k e l free)) v i h = h
  Step-keeps (scheduler (send_work k e room)) v i h = h
  Step-keeps (worker (take_work k rest e)) v i h = h
  Step-keeps (worker (no_work e)) v i h = h
  Step-keeps (worker (fail_piece before k after e room)) v i h = h
  Step-keeps {s} (worker (store_piece before k after piece s' e size run)) v i h =
      let (l, others) = split sha1 place path ti m before k after e v.sound.busy in
      let st =
        finish_piece-Stored sha1 place path ti m s k piece s' l size v.sound.marked.has run in
      let wide : k < 8 * length s.piece_bit_field.bitfield = omega (arith, v.wide) in
      rw (st.is, marks s.piece_bit_field k i v.sound.marked.bytes wide, h) (ground arith)

  Step-IsTracked :
      {s t : Session}
      → 0 < get_num_pieces ti
      → Step sha1 place path ti s t
      → IsTracked s
      → IsTracked t
  Step-IsTracked some_piece st v = record {
    sound = Step-IsSound sha1 place path ti m some_piece st v.sound;
    wide = omega (arith, Step-wide st v.sound, v.wide);
    tracked = λ i lt. Step-Tracked st v.sound v.wide i lt (v.tracked i lt);
  }

  pub Reach-IsTracked :
      {s t : Session}
      → 0 < get_num_pieces ti
      → IsTracked s
      → Reach sha1 place path ti s t
      → IsTracked t
  Reach-IsTracked some_piece h here = h
  Reach-IsTracked some_piece h (next r st) =
      Step-IsTracked some_piece st (Reach-IsTracked some_piece h r)

  pub Reach-keeps :
      {s t : Session}
      → 0 < get_num_pieces ti
      → IsTracked s
      → Reach sha1 place path ti s t
      → (i : ℕ) → safe_has_piece s.piece_bit_field i ≡ true
      → safe_has_piece t.piece_bit_field i ≡ true
  Reach-keeps some_piece v here i h = h
  Reach-keeps some_piece v (next r st) i h =
      Step-keeps st (Reach-IsTracked some_piece v r) i (Reach-keeps some_piece v r i h)
