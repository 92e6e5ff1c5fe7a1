-- ===== src/Session/Run/Schedules.antt =====
-- The turns of the scheduler as steps of the session machine (pkg/torrent/torrentsession.go).
use torrent_client.Common.{
  ℕ, zero, suc, ◌+◌, ◌≤◌, ◌<◌, ◌≡◌, refl, sym, ◌∙◌, not, ◌&&◌, Option, none, some, List, [], ◌∷◌,
  arith, ltb, ◌==◌, ltb→lt, Bytes, length, if_rule,
}
use torrent_client.Bitfield.{ThreadSafeBitfield, safe_has_piece}
use torrent_client.Cache.{contains}
use torrent_client.Session.{got_all_pieces}
use torrent_client.Session.Machine.{
  Session, Reach, here, next, scheduler, take_failed, pick_piece, send_work, threads, next_piece,
}
use torrent_client.Session.Run.{
  Scheduler, at_start, finished, resending, sending, deliver, schedule_piece, after_resend,
  reschedule, schedule_turn,
}
use torrent_client.Torrent.{TorrentFile, TorrentInfo, get_num_pieces}

-- the index that the scheduler is about to send
abbrev pub hand_of : Scheduler → Option ℕ
hand_of (resending k) = some k
hand_of (sending k) = some k
hand_of at_start = none
hand_of finished = none

next_piece_le :
    (bf : ThreadSafeBitfield) (scheduled : List ℕ) (i n : ℕ) → next_piece bf scheduled i n ≤ i + n
unfolding next_piece
next_piece_le bf scheduled i zero = omega arith
next_piece_le bf scheduled i (suc n) =
    if_rule (λ x. x ≤ i + suc n) (not (safe_has_piece bf i) && not (contains i scheduled)) i
      (next_piece bf scheduled (i + 1) n) (λ _. omega arith)
      (λ _. omega (arith, next_piece_le bf scheduled (i + 1) n))

module _ (sha1 : Bytes → Bytes) (place : TorrentFile → ℕ) (path : ℕ) (ti : TorrentInfo) where
  -- What a turn of the scheduler leaves; the goroutines keep what they work on.
  abbrev pub Schedules : Session → Scheduler × Session → Type 0
  Schedules s (p, t) = Reach sha1 place path ti s t × (t.hand ≡ hand_of p) × (t.busy ≡ s.busy)

  module _ {s : Session} where
    deliver-Schedules :
        {t : Session} (k : ℕ) (before after : Scheduler)
        → Reach sha1 place path ti s t
        → t.busy ≡ s.busy
        → t.hand ≡ some k
        → hand_of before ≡ some k
        → hand_of after ≡ none
        → Schedules s (deliver k before after t)
    unfolding deliver
    deliver-Schedules {t} k before after r busy hand b a =
        if_rule (Schedules s) (ltb (length t.work_chan) threads) _ _
          (λ room. (next r (scheduler (send_work k hand (ltb→lt _ _ room))), sym a, busy))
          (λ full. (r, hand ∙ sym b, busy))

    schedule_piece-Schedules :
        {t : Session}
        → Reach sha1 place path ti s t
        → t.busy ≡ s.busy
        → t.hand ≡ none
        → Schedules s (schedule_piece ti t)
    unfolding schedule_piece
    schedule_piece-Schedules {t} r busy free =
        let np = get_num_pieces ti in
        let k = next_piece t.piece_bit_field t.scheduled 0 np in
        let le = next_piece_le t.piece_bit_field t.scheduled 0 np in
        if_rule (Schedules s) (k == np) _ _ (λ all. (r, free, busy))
          (λ some_left.
            let lt : k < np = ground arith in
            deliver-Schedules k (sending k) at_start
              (next r (scheduler (pick_piece k refl lt free))) busy refl refl refl)

    after_resend-Schedules :
        (x : Scheduler × Session) → Schedules s x → Schedules s (after_resend ti x)
    unfolding after_resend
    after_resend-Schedules (at_start, t) h = schedule_piece-Schedules (h.0) (h.2) (h.1)
    after_resend-Schedules (finished, t) h = h
    after_resend-Schedules (resending k, t) h = h
    after_resend-Schedules (sending k, t) h = h

  reschedule-Schedules :
      (s : Session) (failed : List ℕ)
      → s.failed_work_chan ≡ failed
      → s.hand ≡ none
      → Schedules s (reschedule ti s failed)
  unfolding reschedule
  reschedule-Schedules s [] e free = schedule_piece-Schedules here refl free
  reschedule-Schedules s (k ∷ rest) e free = after_resend-Schedules _ (
      deliver-Schedules k (resending k) at_start (next here (scheduler (take_failed k rest e free)))
        refl refl refl refl)

  pub schedule_turn-Schedules :
      (p : Scheduler) (s : Session) → s.hand ≡ hand_of p → Schedules s (schedule_turn ti p s)
  unfolding schedule_turn
  schedule_turn-Schedules at_start s h =
      if_rule (Schedules s) (got_all_pieces ti s.piece_bit_field) _ _ (λ all. (here, h, refl))
        (λ more. reschedule-Schedules s s.failed_work_chan refl h)
  schedule_turn-Schedules (resending k) s h =
      after_resend-Schedules _ (deliver-Schedules k (resending k) at_start here refl h refl refl)
  schedule_turn-Schedules (sending k) s h =
      deliver-Schedules k (sending k) at_start here refl h refl refl
  schedule_turn-Schedules finished s h = (here, h, refl)
