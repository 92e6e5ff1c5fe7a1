-- ===== src/Session/Run/Counted.antt =====
-- `peersStarted` over the turns of a session (pkg/torrent/torrentsession.go).
use torrent_client.Common.{
  ℕ, zero, suc, ◌+◌, ◌≤◌, ◌≡◌, refl, sym, Option, none, some, List, [], ◌∷◌, ◌++◌, arith, leb,
  Bytes, get_elem?, set, if_rule,
}
use torrent_client.Common.Outcome.{Error, ok, Yields, Yields-bind, Yields-chain}
use torrent_client.Tracker.{TorrentPeer}
use torrent_client.Tracker.Connection.{to_peer_info}
use torrent_client.Peer.{PeerConnection, Conn, new_peer_connection}
use torrent_client.Peer.Handshake.{handshake}
use torrent_client.Session.Machine.{threads}
use torrent_client.Session.Run.{
  Worker, looping, gone, waiting, System, put_round, worker_turn, add_worker, start_turn, Choice,
  schedule, work, start, turn, run,
}
use torrent_client.Session.Worker.{Round, again, ends, waits, handle_round, send_failed}
use torrent_client.Torrent.{TorrentFile, TorrentInfo, get_num_pieces, ceil_div}

-- 1 for a goroutine that has not left its loop
abbrev pub alive : Worker → ℕ
alive (gone pc) = 0
alive (looping pc) = 1
alive (waiting index leaves pc) = 1

abbrev pub count_alive : List Worker → ℕ
count_alive [] = 0
count_alive (w ∷ ws) = alive w + count_alive ws

count_alive-set :
    (ws : List Worker) (i : ℕ) (w v : Worker)
    → get_elem? ws i ≡ some w
    → count_alive (set ws i v) + alive w ≡ count_alive ws + alive v
count_alive-set [] i w v h = cc
count_alive-set (x ∷ ws) zero w v h = let same : x ≡ w = cc in rw same (omega arith)
count_alive-set (x ∷ ws) (suc i) w v h = omega (arith, count_alive-set ws i w v h)

count_alive-append :
    (ws : List Worker) (w : Worker) → count_alive (ws ++ (w ∷ [])) ≡ count_alive ws + alive w
count_alive-append [] w = omega arith
count_alive-append (x ∷ ws) w = omega (arith, count_alive-append ws w)

pub alive≤count_alive :
    (ws : List Worker) (i : ℕ) (w : Worker) → get_elem? ws i ≡ some w → alive w ≤ count_alive ws
alive≤count_alive [] i w h = cc
alive≤count_alive (x ∷ ws) zero w h = let same : x ≡ w = cc in rw (sym same) (omega arith)
alive≤count_alive (x ∷ ws) (suc i) w h = omega (arith, alive≤count_alive ws i w h)

-- `peersStarted` counts the goroutines that have not left their loop.

abbrev pub IsCounted : System → Type 0
IsCounted y = y.peers_started ≡ count_alive y.workers

put_round-IsCounted :
    (y : System) (j : ℕ) (w : Worker) (r : Round)
    → get_elem? y.workers j ≡ some w
    → alive w ≡ 1
    → IsCounted y
    → IsCounted (put_round y j r)
unfolding put_round
put_round-IsCounted y j w (again s pc) h a c =
    omega (arith, c, a, count_alive-set y.workers j w (looping pc) h)
put_round-IsCounted y j w (ends s pc) h a c =
    omega (arith, c, a, count_alive-set y.workers j w (gone pc) h)
put_round-IsCounted y j w (waits k leaves s pc) h a c =
    omega (arith, c, a, count_alive-set y.workers j w (waiting k leaves pc) h)

add_worker-IsCounted :
    (y : System) (r : PeerConnection × Option Error) → IsCounted y → IsCounted (add_worker y r)
unfolding add_worker
add_worker-IsCounted y (pc, some e) c = c
add_worker-IsCounted y (pc, none) c = omega (arith, c, count_alive-append y.workers (looping pc))

module _ (sha1 : Bytes → Bytes) (place : TorrentFile → ℕ) (path : ℕ) (ti : TorrentInfo)
    (fuel rounds : ℕ) where
  worker_turn-IsCounted :
      (y : System) (j : ℕ) (w : Option Worker)
      → get_elem? y.workers j ≡ w
      → IsCounted y
      → Yields IsCounted (worker_turn sha1 place path ti fuel rounds y j w)
  unfolding worker_turn
  worker_turn-IsCounted y j (some (looping pc)) h c =
      Yields-bind IsCounted (handle_round sha1 place path ti fuel rounds y.session pc) _
        (λ r. put_round-IsCounted y j (looping pc) r h refl c)
  worker_turn-IsCounted y j (some (waiting k leaves pc)) h c =
      put_round-IsCounted y j (waiting k leaves pc) (send_failed k leaves y.session pc) h refl c
  worker_turn-IsCounted y j (some (gone pc)) h c = c
  worker_turn-IsCounted y j none h c = c

  module _ (peer_id info_hash : Bytes) where
    start_turn-IsCounted :
        (y : System) (dial : Option Conn) (peers : List TorrentPeer)
        → IsCounted y
        → Yields IsCounted
            (start_turn sha1 place path ti fuel rounds peer_id info_hash y dial peers)
    unfolding start_turn
    start_turn-IsCounted y dial [] c = c
    start_turn-IsCounted y dial (p ∷ ps) c =
        if_rule (Yields IsCounted) (leb threads y.peers_started) _ _ (λ enough. c)
          (λ more.
            Yields-bind IsCounted
              (handshake dial (
                new_peer_connection (to_peer_info p) peer_id info_hash
                  (ceil_div (get_num_pieces ti) 8) y.session.piece_bit_field))
              (λ r. ok (add_worker (record y { peers = ps }) r))
              (λ r. add_worker-IsCounted (record y { peers = ps }) r c))

    turn-IsCounted :
        (y : System) (c : Choice)
        → IsCounted y
        → Yields IsCounted (turn sha1 place path ti fuel rounds peer_id info_hash y c)
    unfolding turn
    turn-IsCounted y schedule h = h
    turn-IsCounted y (work j) h = worker_turn-IsCounted y j (get_elem? y.workers j) refl h
    turn-IsCounted y (start dial) h = start_turn-IsCounted y dial y.peers h

    pub run-IsCounted :
        (y : System) (cs : List Choice)
        → IsCounted y
        → Yields IsCounted (run sha1 place path ti fuel rounds peer_id info_hash y cs)
    unfolding run
    run-IsCounted y [] h = h
    run-IsCounted y (c ∷ cs) h =
        Yields-chain IsCounted IsCounted (turn sha1 place path ti fuel rounds peer_id info_hash y c)
          _ (turn-IsCounted y c h) (λ y' h'. run-IsCounted y' cs h')
