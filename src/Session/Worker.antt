-- ===== src/Session/Worker.antt =====
-- pkg/torrent/torrentsession.go: `handlePeerConnection`, round by round, over the session that it
-- shares and a connection to a peer. Sleeping is left out. `rounds` bounds the messages that a round
-- handles, in `ReadAndHandleMessages` and in `getPiece`.
pub mod Refines
pub mod Closed
use torrent_client.Common.{
  ℕ, Bool, true, false, not, Option, none, some, List, [], ◌∷◌, ◌++◌, ltb, if◌then◌else◌, Bytes,
  length,
}
use torrent_client.Common.Outcome.{Outcome, ok, deadline, ◌>>=◌, Error}
use torrent_client.Bitfield.{has_piece}
use torrent_client.Cache.{piece_size, delete}
use torrent_client.Peer.{PeerConnection, send_interested, send_unchoke}
use torrent_client.Peer.Download.{get_piece}
use torrent_client.Peer.Reader.{read_and_handle_messages}
use torrent_client.Session.Machine.{Session, threads, finish_piece}
use torrent_client.Storage.{Disk}
use torrent_client.Torrent.{TorrentFile, TorrentInfo}

-- What a round comes to: the loop goes on, the loop is left, or the goroutine waits for room in
-- `failedWorkChan`, with what it does after the send.
pub data Round : Type 0 where
  again ends : Session → PeerConnection → Round
  waits : (index : ℕ) → (leaves : Bool) → Session → PeerConnection → Round

-- The `select` on `workChan`: without work the index stays 0. `closeChan` is nil, and never ready.
unfoldable pub receive : Session → (work_chan : List ℕ) → ℕ × Session
receive s [] = (0, record s { busy = 0 ∷ s.busy })
receive s (k ∷ rest) = (k, record s { work_chan = rest; busy = k ∷ s.busy })

-- `ts.failedWorkChan <- pieceIndex`, and what comes after it
unfoldable pub send_failed : (index : ℕ) → (leaves : Bool) → Session → PeerConnection → Round
unfolding delete
send_failed index leaves s pc =
    let s' = record s {
      failed_work_chan = s.failed_work_chan ++ (index ∷ []);
      busy = delete index s.busy;
    } in
    if ltb (length s.failed_work_chan) threads
    then if leaves then ends s' pc else again s' pc
    else waits index leaves s pc

-- A choked goroutine says that it is interested; errors of the writes are only logged.
unfoldable pub ask_unchoke : PeerConnection → Outcome PeerConnection
unfolding send_interested send_unchoke
ask_unchoke pc = do a ← send_interested pc; b ← send_unchoke (a.0); ok (b.0)

-- `err != nil && !errors.Is(err, os.ErrDeadlineExceeded)`
abbrev pub is_failure : Option Error → Bool
is_failure none = false
is_failure (some deadline) = false
is_failure (some e) = true

module _ (sha1 : Bytes → Bytes) (place : TorrentFile → ℕ) (path : ℕ) (ti : TorrentInfo)
    (fuel rounds : ℕ) where
  -- what `verifyPiece` leads to
  unfoldable pub after_check : (index : ℕ) → PeerConnection → Session × Bool → Round
  unfolding send_failed delete
  after_check index pc (s, true) = again (record s { busy = delete index s.busy }) pc
  after_check index pc (s, false) = send_failed index false s pc

  -- what `getPiece` leads to
  unfoldable pub after_download :
      Session → (index : ℕ) → (Bytes × Option Error) × PeerConnection → Outcome Round
  unfolding send_failed finish_piece after_check
  after_download s index ((piece, some e), pc) = ok (send_failed index true s pc)
  after_download s index ((piece, none), pc) =
      finish_piece sha1 place path ti s index piece >>= λ r. ok (after_check index pc r)

  -- the round behind the `select`
  unfoldable pub work_on : Session → (index : ℕ) → PeerConnection → Outcome Round
  unfolding has_piece send_failed piece_size get_piece after_download
  work_on s index pc =
      if not (has_piece pc.bit_field index)
      then ok (send_failed index true s pc)
      else get_piece place fuel s.disk rounds pc index (piece_size ti index) >>= λ r.
          after_download s index r

  -- the round behind `ReadAndHandleMessages`
  unfoldable pub after_messages : Session → PeerConnection × Option Error → Outcome Round
  unfolding ask_unchoke receive work_on
  after_messages s (pc, e) =
      let n = receive s s.work_chan in
      if is_failure e
      then ok (again s pc)
      else if pc.choked
      then (ask_unchoke pc >>= λ pc'. ok (again s pc'))
      else work_on (n.1) (n.0) pc

  -- one round of the loop
  unfoldable pub handle_round : Session → PeerConnection → Outcome Round
  unfolding read_and_handle_messages after_messages
  handle_round s pc =
      read_and_handle_messages place fuel s.disk rounds pc >>= λ r. after_messages s r
