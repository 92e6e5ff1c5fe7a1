-- ===== src/Session/Run.antt =====
-- pkg/torrent/torrentsession.go: `StartSession`, as the goroutines that it starts and the turns that
-- they take. A turn is a round of one loop, or another try of a send that waits for room in its
-- channel. `peersStarted` is 1 or more where a goroutine counts itself off. `GetPeers` has been called
-- already; the peers that it found are in the state.
pub mod Refines
pub mod Pending
pub mod Schedules
pub mod Finished
pub mod Safe
pub mod Whole
pub mod Counted
pub mod Closed
use torrent_client.Tracker.Connection.{to_peer_info}
use torrent_client.Tracker.{TorrentPeer}
use torrent_client.Common.{
  ℕ, ◌+◌, ◌-◌, Bool, Option, none, some, List, [], ◌∷◌, ◌++◌, ltb, leb, ◌==◌, if◌then◌else◌, Bytes,
  length, get_elem?, set,
}
use torrent_client.Bitfield.{ThreadSafeBitfield}
use torrent_client.Cache.{delete}
use torrent_client.Common.Outcome.{Error, Outcome, ok, ◌>>=◌}
use torrent_client.Peer.{PeerConnection, Conn, Step, new_peer_connection}
use torrent_client.Peer.Handshake.{handshake}
use torrent_client.Session.{got_all_pieces}
use torrent_client.Session.Machine.{Session, threads, next_piece, start_session}
use torrent_client.Session.Worker.{send_failed, Round, again, ends, waits, handle_round}
use torrent_client.Storage.{Disk}
use torrent_client.Torrent.{TorrentFile, TorrentInfo, get_num_pieces, ceil_div}

-- Where `scheduleWork` is: at the start of its loop, at one of its two sends, or behind the loop.
pub data Scheduler : Type 0 where
  at_start finished : Scheduler
  resending sending : ℕ → Scheduler

-- Where a goroutine of `handlePeerConnection` is: at the start of its loop, at a send on
-- `failedWorkChan`, behind which it leaves its loop or not, or behind the loop.
pub data Worker : Type 0 where
  looping gone : PeerConnection → Worker
  waiting : (index : ℕ) → (leaves : Bool) → PeerConnection → Worker

pub record System : Type 0 where
  pub session : Session
  pub scheduler : Scheduler
  pub workers : List Worker
  pub peers_started : ℕ
  pub peers : List TorrentPeer

-- `ts.workChan <- k` with room for it, and then the place `after`
unfoldable pub deliver : (k : ℕ) → (before after : Scheduler) → Session → Scheduler × Session
deliver k before after s =
    if ltb (length s.work_chan) threads
    then (after, record s { work_chan = s.work_chan ++ (k ∷ []); hand = none })
    else (before, s)

module _ (ti : TorrentInfo) where
  -- the second half of the loop of `scheduleWork`
  unfoldable pub schedule_piece : Session → Scheduler × Session
  unfolding deliver next_piece get_num_pieces
  schedule_piece s =
      let k = next_piece s.piece_bit_field s.scheduled 0 (get_num_pieces ti) in
      if k == get_num_pieces ti
      then (at_start, s)
      else deliver k (sending k) at_start (record s { scheduled = k ∷ s.scheduled; hand = some k })

  -- Behind the send of a failed index comes the second half of the loop.
  unfoldable pub after_resend : Scheduler × Session → Scheduler × Session
  unfolding schedule_piece
  after_resend (at_start, s) = schedule_piece s
  after_resend (p, s) = (p, s)

  -- the `select` on `failedWorkChan`
  unfoldable pub reschedule : Session → (failed_work_chan : List ℕ) → Scheduler × Session
  unfolding deliver after_resend schedule_piece
  reschedule s [] = schedule_piece s
  reschedule s (k ∷ rest) =
      after_resend
        (deliver k (resending k) at_start (record s { failed_work_chan = rest; hand = some k }))

  -- a turn of `scheduleWork`
  unfoldable pub schedule_turn : Scheduler → Session → Scheduler × Session
  unfolding got_all_pieces reschedule after_resend deliver
  schedule_turn at_start s =
      if got_all_pieces ti s.piece_bit_field then (finished, s) else reschedule s s.failed_work_chan
  schedule_turn (resending k) s = after_resend (deliver k (resending k) at_start s)
  schedule_turn (sending k) s = deliver k (sending k) at_start s
  schedule_turn finished s = (finished, s)

-- Where a round leaves the goroutine. One that leaves its loop counts itself off.
unfoldable pub put_round : System → (i : ℕ) → Round → System
put_round y i (again s pc) = record y { session = s; workers = set y.workers i (looping pc) }
put_round y i (ends s pc) = record y {
  session = s;
  workers = set y.workers i (gone pc);
  peers_started = y.peers_started - 1;
}
put_round y i (waits index leaves s pc) = record y {
  session = s;
  workers = set y.workers i (waiting index leaves pc);
}

-- A goroutine is started for a peer that the handshake has gone well with.
unfoldable pub add_worker : System → PeerConnection × Option Error → System
add_worker y (pc, some e) = y
add_worker y (pc, none) = record y {
  workers = y.workers ++ (looping pc ∷ []);
  peers_started = y.peers_started + 1;
}

-- who takes the next turn
pub data Choice : Type 0 where
  schedule : Choice
  work : (i : ℕ) → Choice
  start : (dial : Option Conn) → Choice

module _ (sha1 : Bytes → Bytes) (place : TorrentFile → ℕ) (path : ℕ) (ti : TorrentInfo)
    (fuel rounds : ℕ) where
  -- a turn of goroutine `i`
  unfoldable pub worker_turn : System → (i : ℕ) → Option Worker → Outcome System
  unfolding handle_round put_round send_failed
  worker_turn y i (some (looping pc)) =
      handle_round sha1 place path ti fuel rounds y.session pc >>= λ r. ok (put_round y i r)
  worker_turn y i (some (waiting index leaves pc)) =
      ok (put_round y i (send_failed index leaves y.session pc))
  worker_turn y i (some (gone pc)) = ok y
  worker_turn y i none = ok y

  module _ (peer_id info_hash : Bytes) where
    -- A turn of `startPeers`: a peer that comes up while there are enough goroutines is passed over.
    unfoldable pub start_turn : System → (dial : Option Conn) → List TorrentPeer → Outcome System
    unfolding to_peer_info new_peer_connection handshake add_worker ceil_div get_num_pieces
    start_turn y dial [] = ok y
    start_turn y dial (p ∷ ps) =
        let y' = record y { peers = ps } in
        let pc =
          new_peer_connection (to_peer_info p) peer_id info_hash (ceil_div (get_num_pieces ti) 8)
            y.session.piece_bit_field in
        if leb threads y.peers_started
        then ok y'
        else handshake dial pc >>= λ r. ok (add_worker y' r)

    unfoldable pub turn : System → Choice → Outcome System
    unfolding schedule_turn worker_turn start_turn
    turn y schedule =
        let r = schedule_turn ti y.scheduler y.session in
        ok (record y { scheduler = r.0; session = r.1 })
    turn y (work i) = worker_turn y i (get_elem? y.workers i)
    turn y (start dial) = start_turn y dial y.peers

    -- the turns in their order
    unfoldable pub run : System → List Choice → Outcome System
    unfolding turn
    run y [] = ok y
    run y (c ∷ cs) = turn y c >>= λ y'. run y' cs

-- `StartSession`
abbrev pub start_system : Disk → ThreadSafeBitfield → List TorrentPeer → System
start_system disk bf peers = record {
  session = start_session disk bf;
  scheduler = at_start;
  workers = [];
  peers_started = 0;
  peers = peers;
}
