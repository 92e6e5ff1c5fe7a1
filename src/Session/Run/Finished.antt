-- ===== src/Session/Run/Finished.antt =====
-- Where `scheduleWork` leaves its loop (pkg/torrent/torrentsession.go).
use torrent_client.Tracker.Connection.{to_peer_info}
use torrent_client.Tracker.{TorrentPeer}
use torrent_client.Common.{
  ℕ, ◌≡◌, refl, ◌⊎◌, inl, inr, Bool, true, false, Option, none, some, List, [], ◌∷◌, ltb, leb, ◌==◌,
  Bytes, length, if_rule,
}
use torrent_client.Common.Outcome.{Error, ok, Yields, Yields-bind}
use torrent_client.Peer.{PeerConnection, Conn, new_peer_connection}
use torrent_client.Peer.Handshake.{handshake}
use torrent_client.Session.{got_all_pieces}
use torrent_client.Session.Machine.{Session, threads, next_piece}
use torrent_client.Session.Run.{
  Scheduler, at_start, finished, resending, sending, Worker, looping, gone, waiting, System,
  deliver, schedule_piece, after_resend, reschedule, schedule_turn, put_round, worker_turn,
  add_worker, start_turn,
}
use torrent_client.Session.Worker.{Round, again, ends, waits, handle_round, send_failed}
use torrent_client.Torrent.{TorrentFile, TorrentInfo, get_num_pieces, ceil_div}

abbrev pub is_finished : Scheduler → Bool
is_finished finished = true
is_finished _ = false

module _ (ti : TorrentInfo) where
  abbrev Goes : Scheduler × Session → Type 0
  Goes r = is_finished (r.0) ≡ false

  deliver-Goes :
      (k : ℕ) (before after : Scheduler) (s : Session)
      → is_finished before ≡ false
      → is_finished after ≡ false
      → Goes (deliver k before after s)
  unfolding deliver
  deliver-Goes k before after s b a =
      if_rule Goes (ltb (length s.work_chan) threads) _ _ (λ _. a) (λ _. b)

  schedule_piece-Goes : (s : Session) → Goes (schedule_piece ti s)
  unfolding schedule_piece
  schedule_piece-Goes s =
      let k = next_piece s.piece_bit_field s.scheduled 0 (get_num_pieces ti) in
      if_rule Goes (k == get_num_pieces ti) _ _ (λ _. refl)
        (λ _.
          deliver-Goes k (sending k) at_start
            (record s { scheduled = k ∷ s.scheduled; hand = some k }) refl refl)

  after_resend-Goes : (r : Scheduler × Session) → Goes r → Goes (after_resend ti r)
  unfolding after_resend
  after_resend-Goes (at_start, s) h = schedule_piece-Goes s
  after_resend-Goes (finished, s) h = h
  after_resend-Goes (resending k, s) h = h
  after_resend-Goes (sending k, s) h = h

  reschedule-Goes : (s : Session) (failed : List ℕ) → Goes (reschedule ti s failed)
  unfolding reschedule
  reschedule-Goes s [] = schedule_piece-Goes s
  reschedule-Goes s (k ∷ rest) =
      let t = record s { failed_work_chan = rest; hand = some k } in
      after_resend-Goes (deliver k (resending k) at_start t)
        (deliver-Goes k (resending k) at_start t refl refl)

  -- The loop was left before, or it is left now, with all pieces there.
  abbrev pub Leaves : Scheduler → Scheduler × Session → Type 0
  Leaves p r =
      (is_finished (r.0) ≡ false)
      ⊎ ((p ≡ finished) ⊎ (got_all_pieces ti r.1.piece_bit_field ≡ true))

  pub schedule_turn-Leaves : (p : Scheduler) (s : Session) → Leaves p (schedule_turn ti p s)
  unfolding schedule_turn
  schedule_turn-Leaves at_start s =
      if_rule (Leaves at_start) (got_all_pieces ti s.piece_bit_field) _ _ (λ all. inr (inr all))
        (λ more. inl (reschedule-Goes s s.failed_work_chan))
  schedule_turn-Leaves (resending k) s = inl (
      after_resend-Goes (deliver k (resending k) at_start s)
        (deliver-Goes k (resending k) at_start s refl refl))
  schedule_turn-Leaves (sending k) s = inl (deliver-Goes k (sending k) at_start s refl refl)
  schedule_turn-Leaves finished s = inr (inl refl)

put_round-scheduler : (y : System) (i : ℕ) (r : Round) → (put_round y i r).scheduler ≡ y.scheduler
unfolding put_round
put_round-scheduler y i (again s pc) = refl
put_round-scheduler y i (ends s pc) = refl
put_round-scheduler y i (waits k leaves s pc) = refl

add_worker-scheduler :
    (y : System) (r : PeerConnection × Option Error) → (add_worker y r).scheduler ≡ y.scheduler
unfolding add_worker
add_worker-scheduler y (pc, some e) = refl
add_worker-scheduler y (pc, none) = refl

module _ (sha1 : Bytes → Bytes) (place : TorrentFile → ℕ) (path : ℕ) (ti : TorrentInfo)
    (fuel rounds : ℕ) where
  -- The others leave the scheduler where it is.
  abbrev pub Rests : System → System → Type 0
  Rests y z = z.scheduler ≡ y.scheduler

  pub worker_turn-Rests :
      (y : System) (i : ℕ) (w : Option Worker)
      → Yields (Rests y) (worker_turn sha1 place path ti fuel rounds y i w)
  unfolding worker_turn
  worker_turn-Rests y i (some (looping pc)) =
      Yields-bind (Rests y) (handle_round sha1 place path ti fuel rounds y.session pc) _
        (λ r. put_round-scheduler y i r)
  worker_turn-Rests y i (some (waiting k leaves pc)) =
      put_round-scheduler y i (send_failed k leaves y.session pc)
  worker_turn-Rests y i (some (gone pc)) = refl
  worker_turn-Rests y i none = refl

  pub start_turn-Rests :
      (peer_id info_hash : Bytes) (y : System) (dial : Option Conn) (peers : List TorrentPeer)
      → Yields (Rests y) (start_turn sha1 place path ti fuel rounds peer_id info_hash y dial peers)
  unfolding start_turn
  start_turn-Rests peer_id info_hash y dial [] = refl
  start_turn-Rests peer_id info_hash y dial (p ∷ ps) =
      if_rule (Yields (Rests y)) (leb threads y.peers_started) _ _ (λ enough. refl)
        (λ more.
          Yields-bind (Rests y)
            (handshake dial (
              new_peer_connection (to_peer_info p) peer_id info_hash
                (ceil_div (get_num_pieces ti) 8) y.session.piece_bit_field))
            (λ r. ok (add_worker (record y { peers = ps }) r))
            (λ r. add_worker-scheduler (record y { peers = ps }) r))
