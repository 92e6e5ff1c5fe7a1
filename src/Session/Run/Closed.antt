-- ===== src/Session/Run/Closed.antt =====
-- A goroutine whose peer has closed its connection, over the turns of a session
-- (pkg/torrent/torrentsession.go).
use torrent_client.Common.{
  ℕ, zero, suc, ◌<◌, ◌≡◌, refl, sym, ap, ◌∙◌, ◌≢◌, inl, inr, Option, none, some, List, [], ◌∷◌,
  ◌++◌, arith, leb, ◌==◌, ==_iff, Bool-cases, Bytes, get_elem?, set, if_rule,
}
use torrent_client.Bitfield.{ThreadSafeBitfield}
use torrent_client.Common.Outcome.{
  Yields-weaken, Error, ok, ◌>>=◌, Yields, Yields-bind, Yields-chain, Yields-at,
}
use torrent_client.Tracker.{TorrentPeer}
use torrent_client.Tracker.Connection.{to_peer_info}
use torrent_client.Peer.{PeerConnection, Conn, new_peer_connection}
use torrent_client.Peer.Handshake.{handshake}
use torrent_client.Session.Machine.{threads}
use torrent_client.Session.Run.{
  Worker, looping, gone, waiting, System, put_round, worker_turn, add_worker, start_turn, Choice,
  schedule, work, start, turn, run, start_system,
}
use torrent_client.Session.Worker.{Round, again, ends, waits, handle_round, send_failed}
use torrent_client.Session.Worker.Closed.{hung_up, closed_again}
use torrent_client.Storage.{Disk}
use torrent_client.Torrent.{TorrentFile, TorrentInfo, get_num_pieces, ceil_div}
use torrent_client.Session.Run.Counted.{IsCounted, alive≤count_alive, run-IsCounted}

module _ {ℓ} {A : Type ℓ} where
  get_elem?-set_ne :
      (xs : List A) (i j : ℕ) (v : A) → i ≢ j → get_elem? (set xs j v) i ≡ get_elem? xs i
  get_elem?-set_ne [] i j v h = refl
  get_elem?-set_ne (x ∷ xs) zero zero v h = absurd (h refl)
  get_elem?-set_ne (x ∷ xs) zero (suc j) v h = refl
  get_elem?-set_ne (x ∷ xs) (suc i) zero v h = refl
  get_elem?-set_ne (x ∷ xs) (suc i) (suc j) v h = get_elem?-set_ne xs i j v (λ e. h (ap suc e))

  set-same : (xs : List A) (i : ℕ) (v : A) → get_elem? xs i ≡ some v → set xs i v ≡ xs
  set-same [] i v h = refl
  set-same (x ∷ xs) zero v h = cc
  set-same (x ∷ xs) (suc i) v h = ap (λ ys. x ∷ ys) (set-same xs i v h)

  get_elem?-append :
      (xs ys : List A) (i : ℕ) (v : A) → get_elem? xs i ≡ some v → get_elem? (xs ++ ys) i ≡ some v
  get_elem?-append [] ys i v h = cc
  get_elem?-append (x ∷ xs) ys zero v h = h
  get_elem?-append (x ∷ xs) ys (suc i) v h = get_elem?-append xs ys i v h

put_round-others :
    (y : System) (i j : ℕ) (r : Round)
    → i ≢ j
    → get_elem? (put_round y j r).workers i ≡ get_elem? y.workers i
unfolding put_round
put_round-others y i j (again s pc) ne = get_elem?-set_ne y.workers i j (looping pc) ne
put_round-others y i j (ends s pc) ne = get_elem?-set_ne y.workers i j (gone pc) ne
put_round-others y i j (waits k leaves s pc) ne =
    get_elem?-set_ne y.workers i j (waiting k leaves pc) ne

add_worker-keeps :
    (y : System) (r : PeerConnection × Option Error) (i : ℕ) (w : Worker)
    → get_elem? y.workers i ≡ some w
    → get_elem? (add_worker y r).workers i ≡ some w
unfolding add_worker
add_worker-keeps y (pc, some e) i w h = h
add_worker-keeps y (pc, none) i w h = get_elem?-append y.workers (looping pc ∷ []) i w h

module _ (sha1 : Bytes → Bytes) (place : TorrentFile → ℕ) (path : ℕ) (ti : TorrentInfo)
    (fuel rounds : ℕ) where
  worker_turn-others :
      (y : System) (i j : ℕ) (w : Option Worker)
      → i ≢ j
      → Yields
          (λ z. get_elem? z.workers i ≡ get_elem? y.workers i)
          (worker_turn sha1 place path ti fuel rounds y j w)
  unfolding worker_turn
  worker_turn-others y i j (some (looping pc)) ne =
      Yields-bind (λ z. get_elem? z.workers i ≡ get_elem? y.workers i)
        (handle_round sha1 place path ti fuel rounds y.session pc) _
        (λ r. put_round-others y i j r ne)
  worker_turn-others y i j (some (waiting k leaves pc)) ne =
      put_round-others y i j (send_failed k leaves y.session pc) ne
  worker_turn-others y i j (some (gone pc)) ne = refl
  worker_turn-others y i j none ne = refl

  module _ (peer_id info_hash : Bytes) where
    start_turn-keeps :
        (i : ℕ) (w : Worker) (y : System) (dial : Option Conn) (peers : List TorrentPeer)
        → get_elem? y.workers i ≡ some w
        → Yields
            (λ z. get_elem? z.workers i ≡ some w)
            (start_turn sha1 place path ti fuel rounds peer_id info_hash y dial peers)
    unfolding start_turn
    start_turn-keeps i w y dial [] h = h
    start_turn-keeps i w y dial (p ∷ ps) h =
        let Keeps : System → Type 0 = λ z. get_elem? z.workers i ≡ some w in
        if_rule (Yields Keeps) (leb threads y.peers_started) _ _ (λ enough. h)
          (λ more.
            Yields-bind Keeps
              (handshake dial (
                new_peer_connection (to_peer_info p) peer_id info_hash
                  (ceil_div (get_num_pieces ti) 8) y.session.piece_bit_field))
              (λ r. ok (add_worker (record y { peers = ps }) r))
              (λ r. add_worker-keeps (record y { peers = ps }) r i w h))

module _ (sha1 : Bytes → Bytes) (place : TorrentFile → ℕ) (path : ℕ) (ti : TorrentInfo)
    (fuel rounds : ℕ) (peer_id info_hash : Bytes) (i : ℕ) (pc : PeerConnection) (c : Conn) where
  abbrev HungUp : System → Type 0
  HungUp z = get_elem? z.workers i ≡ some (looping (hung_up pc c))

  looping_turn :
      (y : System)
      → worker_turn sha1 place path ti fuel (suc rounds) y i (some (looping (hung_up pc c)))
        ≡ ok (put_round y i (again y.session (hung_up pc c)))
  unfolding worker_turn
  looping_turn y =
      ap (λ m. m >>= λ r. ok (put_round y i r))
        (closed_again sha1 place path ti fuel rounds y.session pc c)

  -- its own turn leaves the system as it is
  own_turn :
      (y : System)
      → HungUp y
      → worker_turn sha1 place path ti fuel (suc rounds) y i (get_elem? y.workers i) ≡ ok y
  unfolding put_round
  own_turn y h =
      ap (λ w. worker_turn sha1 place path ti fuel (suc rounds) y i w) h
      ∙ looping_turn y
      ∙ ap (λ ws. ok (record y { workers = ws })) (set-same y.workers i (looping (hung_up pc c)) h)

  own_turn-HungUp :
      (y : System)
      → HungUp y
      → Yields HungUp (worker_turn sha1 place path ti fuel (suc rounds) y i (get_elem? y.workers i))
  own_turn-HungUp y h = rw (own_turn y h) h

  turn-HungUp :
      (y : System) (t : Choice)
      → HungUp y
      → Yields HungUp (turn sha1 place path ti fuel (suc rounds) peer_id info_hash y t)
  unfolding turn
  turn-HungUp y schedule h = h
  turn-HungUp y (start dial) h =
      start_turn-keeps sha1 place path ti fuel (suc rounds) peer_id info_hash i
        (looping (hung_up pc c)) y dial y.peers h
  turn-HungUp y (work j) h = elim (Bool-cases (i == j)) [
    | inl same ↦ let at_j : i ≡ j = (==_iff i j).0 same in rw (sym at_j) (own_turn-HungUp y h)
    | inr other ↦
        let ne : i ≢ j = λ e. ground arith in
        Yields-weaken (λ z. get_elem? z.workers i ≡ get_elem? y.workers i) HungUp
          (worker_turn sha1 place path ti fuel (suc rounds) y j (get_elem? y.workers j))
          (λ z e. e ∙ h)
          (worker_turn-others sha1 place path ti fuel (suc rounds) y i j (get_elem? y.workers j) ne)
  ]

  run-HungUp :
      (y : System) (ts : List Choice)
      → HungUp y
      → Yields HungUp (run sha1 place path ti fuel (suc rounds) peer_id info_hash y ts)
  unfolding run
  run-HungUp y [] h = h
  run-HungUp y (t ∷ ts) h =
      Yields-chain HungUp HungUp (turn sha1 place path ti fuel (suc rounds) peer_id info_hash y t) _
        (turn-HungUp y t h) (λ y' h'. run-HungUp y' ts h')

  -- A goroutine whose peer has closed its connection, with all that was sent read, stays at the start
  -- of its loop for ever, with one round or more for `ReadAndHandleMessages`: from a system that
  -- `StartSession` has come to by any turns, any further turns that come to their end leave it where
  -- it is, each turn of its own leaves everything as it is, and `peersStarted` stays above 0.
  pub closed_forever :
      (disk : Disk) (bf : ThreadSafeBitfield) (peers : List TorrentPeer)
      (before after : List Choice) (y z : System)
      → run sha1 place path ti fuel
          (suc rounds)
          peer_id
          info_hash
          (start_system disk bf peers)
          before
        ≡ ok y
      → get_elem? y.workers i ≡ some (looping (hung_up pc c))
      → run sha1 place path ti fuel (suc rounds) peer_id info_hash y after ≡ ok z
      → (get_elem? z.workers i ≡ some (looping (hung_up pc c)))
        × (turn sha1 place path ti fuel (suc rounds) peer_id info_hash z (work i) ≡ ok z)
        × (0 < z.peers_started)
  unfolding turn
  closed_forever disk bf peers before after y z e h e' =
      let begin = start_system disk bf peers in
      let counted =
        Yields-at IsCounted _ y
          (run-IsCounted sha1 place path ti fuel (suc rounds) peer_id info_hash begin before refl)
          e in
      let counted' =
        Yields-at IsCounted _ z
          (run-IsCounted sha1 place path ti fuel (suc rounds) peer_id info_hash y after counted)
          e' in
      let h' = Yields-at HungUp _ z (run-HungUp y after h) e' in
      (
        h',
        own_turn z h',
        omega (arith, counted', alive≤count_alive z.workers i (looping (hung_up pc c)) h'),
      )
