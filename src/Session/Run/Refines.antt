-- ===== src/Session/Run/Refines.antt =====
-- The turns of a session as steps of the session machine (pkg/torrent/torrentsession.go).
use torrent_client.Tracker.Connection.{to_peer_info}
use torrent_client.Tracker.{TorrentPeer}
use torrent_client.Common.{
  ℕ, ◌+◌, ◌≤◌, ◌≡◌, refl, ap, ◌∙◌, Bool, Option, none, some, List, [], ◌∷◌, ◌++◌, arith, ltb, leb,
  ltb→lt, ==_refl, Bytes, length, get_elem?, if_rule,
}
use torrent_client.Bitfield.{ThreadSafeBitfield}
use torrent_client.Cache.{delete}
use torrent_client.Common.Outcome.{
  ok, Error, Yields, Yields-bind, Yields-chain, Yields-weaken, Yields-of, Yields-at,
}
use torrent_client.Peer.{PeerConnection, Conn, new_peer_connection}
use torrent_client.Peer.Handshake.{handshake}
use torrent_client.Session.Machine.{
  Session, Reach, here, next, worker, fail_piece, threads, start_session,
}
use torrent_client.Session.Worker.{Round, again, ends, waits, handle_round, send_failed}
use torrent_client.Session.Worker.Refines.{Does, handle_round-Does}
use torrent_client.Session.Run.{
  Worker, looping, gone, waiting, System, put_round, worker_turn, add_worker, start_turn, Choice,
  schedule, work, start, turn, run, start_system,
}
use torrent_client.Session.Run.Pending.{
  times, pending, pending_of, times-pending-set, pending-append, Split, times-Split,
  times-Split-delete,
}
use torrent_client.Storage.{Disk}
use torrent_client.Torrent.{ceil_div, TorrentFile, TorrentInfo, get_num_pieces}
use torrent_client.Session.Run.Schedules.{hand_of, schedule_turn-Schedules}

module _ (sha1 : Bytes → Bytes) (place : TorrentFile → ℕ) (path : ℕ) (ti : TorrentInfo)
    (fuel rounds : ℕ) where
  -- The scheduler holds what it is about to send, and each index that a goroutine waits to send back
  -- is at work, as often as they wait to send it.
  pub record Coherent (y : System) : Type 0 where
    hand : y.session.hand ≡ hand_of y.scheduler
    held : (k : ℕ) → times k (pending y.workers) ≤ times k y.session.busy

  -- The turn takes the session along steps of the machine, and leaves what `Coherent` says.
  pub record Runs (y z : System) : Type 0 where
    pub reach : Reach sha1 place path ti y.session z.session
    pub coherent : Coherent z

  put_round-Runs :
      (y : System) (i : ℕ) (w : Worker) (others : List ℕ) (r : Round)
      → Coherent y
      → get_elem? y.workers i ≡ some w
      → ((k : ℕ) → times k others + times k (pending_of w) ≡ times k y.session.busy)
      → Does sha1 place path ti fuel rounds y.session others r
      → Runs y (put_round y i r)
  unfolding put_round
  put_round-Runs y i w others (again t pc) c e h d = record {
    reach = d.0;
    coherent = record {
      hand = d.1 ∙ c.hand;
      held = λ k.
          let b = ap (times k) (d.2) in
          omega (arith, times-pending-set k y.workers i w (looping pc) e, h k, c.held k, b);
    };
  }
  put_round-Runs y i w others (ends t pc) c e h d = record {
    reach = d.0;
    coherent = record {
      hand = d.1 ∙ c.hand;
      held = λ k.
          let b = ap (times k) (d.2) in
          omega (arith, times-pending-set k y.workers i w (gone pc) e, h k, c.held k, b);
    };
  }
  put_round-Runs y i w others (waits j leaves t pc) c e h d = record {
    reach = d.0;
    coherent = record {
      hand = d.1 ∙ c.hand;
      held = λ k.
          let b = ap (times k) (d.2) in
          omega
            (arith, times-pending-set k y.workers i w (waiting j leaves pc) e, h k, c.held k, b);
    };
  }

  -- Another try of a send on `failedWorkChan`.
  resend-Runs :
      (y : System) (i k : ℕ) (leaves : Bool) (pc : PeerConnection)
      → Coherent y
      → get_elem? y.workers i ≡ some (waiting k leaves pc)
      → Split k y.session.busy
      → Runs y (put_round y i (send_failed k leaves y.session pc))
  unfolding send_failed
  resend-Runs y i k leaves pc c e split =
      let s = y.session in
      let w = waiting k leaves pc in
      let kept = λ (j : ℕ). times-Split-delete j k s.busy split in
      if_rule (λ r. Runs y (put_round y i r)) (ltb (length s.failed_work_chan) threads) _ _
        (λ room.
          let sent =
            next here (
              worker (fail_piece (split.before) k (split.after) (split.whole) (ltb→lt _ _ room))) in
          let reach : Reach sha1 place path ti s (record s {
            failed_work_chan = s.failed_work_chan ++ (k ∷ []);
            busy = delete k s.busy;
          }) =
            rw (split.rest) sent in
          if_rule (λ r. Runs y (put_round y i r)) leaves _ _
            (λ _. put_round-Runs y i w (delete k s.busy) _ c e kept (reach, refl, refl))
            (λ _. put_round-Runs y i w (delete k s.busy) _ c e kept (reach, refl, refl)))
        (λ full.
          unfold put_round in
          record {
            reach = here;
            coherent = record {
              hand = c.hand;
              held = λ j. omega (arith, times-pending-set j y.workers i w w e, c.held j);
            };
          })

  worker_turn-Runs :
      (y : System) (i : ℕ) (w : Option Worker)
      → Coherent y
      → get_elem? y.workers i ≡ w
      → Yields (Runs y) (worker_turn sha1 place path ti fuel rounds y i w)
  unfolding worker_turn
  worker_turn-Runs y i (some (looping pc)) c e =
      let round = handle_round sha1 place path ti fuel rounds y.session pc in
      Yields-chain (Does sha1 place path ti fuel rounds y.session y.session.busy) (Runs y) round _
        (Yields-of _ round
          (λ r e. handle_round-Does sha1 place path ti fuel rounds y.session pc r e))
        (λ r d. put_round-Runs y i (looping pc) y.session.busy r c e (λ k. omega arith) d)
  worker_turn-Runs y i (some (waiting k leaves pc)) c e =
      let gone_then = times-pending-set k y.workers i (waiting k leaves pc) (gone pc) e in
      let one : times k (k ∷ []) ≡ 1 = rw (==_refl k) in
      resend-Runs y i k leaves pc c e
        (times-Split k y.session.busy (omega (arith, gone_then, one, c.held k)))
  worker_turn-Runs y i (some (gone pc)) c e = record { reach = here; coherent = c }
  worker_turn-Runs y i none c e = record { reach = here; coherent = c }

  Reach-trans :
      {s t u : Session}
      → Reach sha1 place path ti s t
      → Reach sha1 place path ti t u
      → Reach sha1 place path ti s u
  Reach-trans r here = r
  Reach-trans r (next q st) = next (Reach-trans r q) st

  module _ (peer_id info_hash : Bytes) where
    add_worker-Coherent :
        (y : System) (r : PeerConnection × Option Error) → Coherent y → Runs y (add_worker y r)
    unfolding add_worker
    add_worker-Coherent y (pc, some e) c = record { reach = here; coherent = c }
    add_worker-Coherent y (pc, none) c = record {
      reach = here;
      coherent = record {
        hand = c.hand;
        held = λ k. omega (arith, pending-append k y.workers (looping pc), c.held k);
      };
    }

    start_turn-Runs :
        (y : System) (dial : Option Conn) (peers : List TorrentPeer)
        → Coherent y
        → Yields (Runs y) (start_turn sha1 place path ti fuel rounds peer_id info_hash y dial peers)
    unfolding start_turn
    start_turn-Runs y dial [] c = record { reach = here; coherent = c }
    start_turn-Runs y dial (p ∷ ps) c =
        let c' : Coherent (record y { peers = ps }) = record { hand = c.hand; held = c.held } in
        if_rule (Yields (Runs y)) (leb threads y.peers_started) _ _
          (λ enough. record { reach = here; coherent = c' })
          (λ more.
            Yields-bind (Runs y)
              (handshake dial (
                new_peer_connection (to_peer_info p) peer_id info_hash
                  (ceil_div (get_num_pieces ti) 8) y.session.piece_bit_field))
              (λ r. ok (add_worker (record y { peers = ps }) r))
              (λ r.
                let a = add_worker-Coherent (record y { peers = ps }) r c' in
                record { reach = a.reach; coherent = a.coherent }))

    pub turn-Runs :
        (y : System) (c : Choice)
        → Coherent y
        → Yields (Runs y) (turn sha1 place path ti fuel rounds peer_id info_hash y c)
    unfolding turn
    turn-Runs y schedule c =
        let d = schedule_turn-Schedules sha1 place path ti y.scheduler y.session c.hand in
        record {
          reach = d.0;
          coherent = record { hand = d.1; held = λ k. omega (arith, c.held k, ap (times k) (d.2)) };
        }
    turn-Runs y (work i) c = worker_turn-Runs y i (get_elem? y.workers i) c refl
    turn-Runs y (start dial) c = start_turn-Runs y dial y.peers c

    run-Runs :
        (y : System) (cs : List Choice)
        → Coherent y
        → Yields (Runs y) (run sha1 place path ti fuel rounds peer_id info_hash y cs)
    unfolding run
    run-Runs y [] c = record { reach = here; coherent = c }
    run-Runs y (t ∷ ts) c =
        Yields-chain (Runs y) (Runs y) (turn sha1 place path ti fuel rounds peer_id info_hash y t) _
          (turn-Runs y t c)
          (λ y' h.
            Yields-weaken (Runs y') (Runs y)
              (run sha1 place path ti fuel rounds peer_id info_hash y' ts)
              (λ z h'. record { reach = Reach-trans h.reach h'.reach; coherent = h'.coherent })
              (run-Runs y' ts h.coherent))

    pub start-Coherent :
        (disk : Disk) (bf : ThreadSafeBitfield) (peers : List TorrentPeer)
        → Coherent (start_system disk bf peers)
    start-Coherent disk bf peers = record { hand = refl; held = λ k. omega arith }

    -- Whatever the peers send, and in whatever order the goroutines take their turns: the turns of
    -- `StartSession` that come to their end take the session along steps of the session machine,
    -- from its start.
    pub run-Reach :
        (disk : Disk) (bf : ThreadSafeBitfield) (peers : List TorrentPeer) (turns : List Choice)
        (y : System)
        → run sha1 place path ti fuel rounds peer_id info_hash (start_system disk bf peers) turns
          ≡ ok y
        → Reach sha1 place path ti (start_session disk bf) y.session
    run-Reach disk bf peers turns y e =
        let begin = start_system disk bf peers in
        let runs =
          Yields-at (Runs begin) _ y
            (run-Runs begin turns (record { hand = refl; held = λ k. omega arith })) e in
        runs.reach
