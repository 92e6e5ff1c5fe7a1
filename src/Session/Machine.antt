-- ===== src/Session/Machine.antt =====
-- pkg/torrent/torrentsession.go: a download session as a state machine. `scheduleWork` and the
-- goroutines of `handlePeerConnection` share the bitfield, the disk and two channels; a step is
-- what one of them does between two points at which another one may run. What a peer sends is
-- free, so `getPiece` may come back with any bytes of the length that was asked for, or fail.
pub mod Rewrite
pub mod Storing
pub mod Download
pub mod Tracking
pub mod Safety
pub mod Initial
use torrent_client.Common.{
  ℕ, zero, suc, ◌+◌, ◌<◌, ◌≡◌, Bool, true, false, not, ◌&&◌, Option, none, some, List, [], ◌∷◌,
  ◌++◌, if◌then◌else◌, Bytes, length,
}
use torrent_client.Common.Outcome.{Outcome, ok, ◌>>=◌}
use torrent_client.Bitfield.{ThreadSafeBitfield, safe_has_piece, set_piece}
use torrent_client.Cache.{contains, piece_size}
use torrent_client.Session.{verify_piece, write_piece_to_file}
use torrent_client.Storage.{Disk}
use torrent_client.Torrent.{TorrentFile, TorrentInfo, get_num_pieces}

-- `Threads`, the capacity of both channels
abbrev pub threads : ℕ
threads = 10

-- `hand` is the index that `scheduleWork` is about to send, `busy` has the indices that the
-- goroutines work on, `scheduled` is the set `piecesScheduled`.
pub record Session : Type 0 where
  pub disk : Disk
  pub piece_bit_field : ThreadSafeBitfield
  pub work_chan : List ℕ
  pub failed_work_chan : List ℕ
  pub scheduled : List ℕ
  pub hand : Option ℕ
  pub busy : List ℕ

-- The search of `scheduleWork` over the `n` pieces from `i` on: the first piece that is neither
-- there nor scheduled, or the number behind the last one.
unfoldable pub next_piece : ThreadSafeBitfield → (scheduled : List ℕ) → (i n : ℕ) → ℕ
unfolding safe_has_piece contains
next_piece bf scheduled i zero = i
next_piece bf scheduled i (suc n) =
    let rest = next_piece bf scheduled (i + 1) n in
    if not (safe_has_piece bf i) && not (contains i scheduled) then i else rest

abbrev pub start_session : Disk → ThreadSafeBitfield → Session
start_session disk bf = record {
  disk = disk;
  piece_bit_field = bf;
  work_chan = [];
  failed_work_chan = [];
  scheduled = [];
  hand = none;
  busy = [];
}

module _ (sha1 : Bytes → Bytes) (place : TorrentFile → ℕ) (path : ℕ) (ti : TorrentInfo) where
  -- What `handlePeerConnection` does with a piece that it got: it is written and marked if it is
  -- right. The result says whether it is.
  unfoldable pub finish_piece : Session → (index : ℕ) → Bytes → Outcome (Session × Bool)
  unfolding verify_piece write_piece_to_file set_piece
  finish_piece s index piece = do
    valid ← verify_piece sha1 ti index piece
    elim valid [
      | false ↦ ok (s, false)
      | true ↦ do
        disk ← write_piece_to_file place path s.disk ti index piece
        ok (record s { disk = disk; piece_bit_field = set_piece s.piece_bit_field index }, true)
    ]

  -- one step of `scheduleWork`
  pub data Schedule (s : Session) : Session → Type 0 where
    -- `failedIndex := <-ts.failedWorkChan`
    take_failed :
        (k : ℕ) (rest : List ℕ)
        → s.failed_work_chan ≡ k ∷ rest
        → s.hand ≡ none
        → Schedule s (record s { failed_work_chan = rest; hand = some k })
    -- the search, and `piecesScheduled[pieceIndex] = true`
    pick_piece :
        (k : ℕ)
        → k ≡ next_piece s.piece_bit_field s.scheduled 0 (get_num_pieces ti)
        → k < get_num_pieces ti
        → s.hand ≡ none
        → Schedule s (record s { scheduled = k ∷ s.scheduled; hand = some k })
    -- `ts.workChan <- …`
    send_work :
        (k : ℕ)
        → s.hand ≡ some k
        → length s.work_chan < threads
        → Schedule s (record s { work_chan = s.work_chan ++ (k ∷ []); hand = none })

  -- one step of a goroutine in `handlePeerConnection`
  pub data Work (s : Session) : Session → Type 0 where
    -- `case pieceIndex = <-ts.workChan`
    take_work :
        (k : ℕ) (rest : List ℕ)
        → s.work_chan ≡ k ∷ rest
        → Work s (record s { work_chan = rest; busy = k ∷ s.busy })
    -- `default`: with no work the goroutine goes on with index 0.
    no_work : s.work_chan ≡ [] → Work s (record s { busy = 0 ∷ s.busy })
    -- the peer does not have the piece, the download fails, or the hash is wrong
    fail_piece :
        (before : List ℕ) (k : ℕ) (after : List ℕ)
        → s.busy ≡ before ++ (k ∷ after)
        → length s.failed_work_chan < threads
        → Work s
            (record s { failed_work_chan = s.failed_work_chan ++ (k ∷ []); busy = before ++ after })
    -- the piece has arrived and is right
    store_piece :
        (before : List ℕ) (k : ℕ) (after : List ℕ) (piece : Bytes) (s' : Session)
        → s.busy ≡ before ++ (k ∷ after)
        → length piece ≡ piece_size ti k
        → finish_piece s k piece ≡ ok (s', true)
        → Work s (record s' { busy = before ++ after })

  pub data Step (s : Session) : Session → Type 0 where
    scheduler : {t : Session} → Schedule s t → Step s t
    worker : {t : Session} → Work s t → Step s t

  pub data Reach (s : Session) : Session → Type 0 where
    here : Reach s s
    next : {t u : Session} → Reach s t → Step t u → Reach s u
