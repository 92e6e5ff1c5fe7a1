-- ===== src/Session/Worker/Refines.antt =====
-- A round of `handlePeerConnection` as steps of the session machine
-- (pkg/torrent/torrentsession.go).
use torrent_client.Common.{
  ℕ, ◌≡◌, refl, ◌∙◌, inl, inr, Bool, true, false, not, Option, none, some, List, [], ◌∷◌, arith,
  ltb, ltb→lt, ==_refl, Bool-cases, Bytes, length, if_rule,
}
use torrent_client.Bitfield.{has_piece}
use torrent_client.Cache.{piece_size, delete}
use torrent_client.Common.Outcome.{
  ok, Error, Yields, Yields-bind, Yields-chain, Yields-of, Yields-at,
}
use torrent_client.Peer.{PeerConnection}
use torrent_client.Peer.Download.{get_piece}
use torrent_client.Peer.Download.Size.{get_piece-IsSized}
use torrent_client.Peer.Reader.{read_and_handle_messages}
use torrent_client.Session.{verify_piece, write_piece_to_file}
use torrent_client.Session.Machine.{
  Session, Reach, here, next, worker, take_work, no_work, fail_piece, store_piece, threads,
  finish_piece,
}
use torrent_client.Session.Worker.{
  Round, again, ends, waits, receive, send_failed, ask_unchoke, is_failure, after_check,
  after_download, work_on, after_messages, handle_round,
}
use torrent_client.Storage.{Disk}
use torrent_client.Torrent.{TorrentFile, TorrentInfo}

delete_front : (k : ℕ) (l : List ℕ) → delete k (k ∷ l) ≡ l
unfolding delete
delete_front k l = rw (==_refl k)

module _ (sha1 : Bytes → Bytes) (place : TorrentFile → ℕ) (path : ℕ) (ti : TorrentInfo)
    (fuel rounds : ℕ) where
  -- The session has gone along steps of the machine from `s`, and the round has put down the index
  -- that it worked on, if it is not waiting to send it back; `others` are those of the others.
  abbrev pub Does : Session → (others : List ℕ) → Round → Type 0
  Does s others (again t pc) = Reach sha1 place path ti s t × (t.hand ≡ s.hand) × (t.busy ≡ others)
  Does s others (ends t pc) = Reach sha1 place path ti s t × (t.hand ≡ s.hand) × (t.busy ≡ others)
  Does s others (waits k leaves t pc) =
      Reach sha1 place path ti s t × (t.hand ≡ s.hand) × (t.busy ≡ k ∷ others)

  -- `verifyPiece` and the write leave the rest of the session; a wrong piece leaves all of it.
  abbrev Kept : Session → Session × Bool → Type 0
  Kept t (t', true) = (t'.hand ≡ t.hand) × (t'.busy ≡ t.busy)
  Kept t (t', false) = t' ≡ t

  finish_piece-Kept :
      (t : Session) (index : ℕ) (piece : Bytes)
      → Yields (Kept t) (finish_piece sha1 place path ti t index piece)
  unfolding finish_piece
  finish_piece-Kept t index piece =
      Yields-bind (Kept t) (verify_piece sha1 ti index piece) _ (λ valid. elim (Bool-cases valid) [
        | inr wrong ↦ rw wrong refl
        | inl right ↦ rw right (
            Yields-bind (Kept t) (write_piece_to_file place path t.disk ti index piece) _
              (λ disk. (refl, refl)))
      ])

  get_piece-Returns :
      (pc : PeerConnection) (index size : ℕ) (disk : Disk)
      → Yields
          (λ d. d.0.1 ≡ none → length d.0.0 ≡ size)
          (get_piece place fuel disk rounds pc index size)
  get_piece-Returns pc index size disk =
      Yields-of (λ d. d.0.1 ≡ none → length d.0.0 ≡ size) _ returned
    where
      returned :
          (d : (Bytes × Option Error) × PeerConnection)
          → get_piece place fuel disk rounds pc index size ≡ ok d
          → d.0.1 ≡ none
          → length d.0.0 ≡ size
      returned ((piece, none), pc') e h =
          get_piece-IsSized place fuel disk rounds pc index size piece pc' e
      returned ((piece, some x), pc') e h = absurd (ground arith)

  module _ {s : Session} (others : List ℕ) where
    send_failed-Does :
        {t : Session} (index : ℕ) (leaves : Bool) (pc : PeerConnection)
        → Reach sha1 place path ti s t
        → t.hand ≡ s.hand
        → t.busy ≡ index ∷ others
        → Does s others (send_failed index leaves t pc)
    unfolding send_failed
    send_failed-Does {t} index leaves pc r hand busy =
        let e : delete index t.busy ≡ others = rw (busy, delete_front index others) in
        if_rule (Does s others) (ltb (length t.failed_work_chan) threads) _ _
          (λ room.
            let sent = next r (worker (fail_piece [] index others busy (ltb→lt _ _ room))) in
            rw e (
              if_rule (Does s others) leaves _ _ (λ _. (sent, hand, refl))
                (λ _. (sent, hand, refl))))
          (λ full. (r, hand, busy))

    after_check-Does :
        {t : Session} (index : ℕ) (piece : Bytes) (pc : PeerConnection) (v : Session × Bool)
        → Reach sha1 place path ti s t
        → t.hand ≡ s.hand
        → t.busy ≡ index ∷ others
        → length piece ≡ piece_size ti index
        → finish_piece sha1 place path ti t index piece ≡ ok v
        → Does s others (after_check sha1 place path ti fuel rounds index pc v)
    unfolding after_check
    after_check-Does {t} index piece pc (t', true) r hand busy size e =
        let same = Yields-at (Kept t) _ _ (finish_piece-Kept t index piece) e in
        rw (same.1, busy, delete_front index others)
          (next r (worker (store_piece [] index others piece t' busy size e)), same.0 ∙ hand, refl)
    after_check-Does {t} index piece pc (t', false) r hand busy size e =
        let same = Yields-at (Kept t) _ _ (finish_piece-Kept t index piece) e in
        rw same (send_failed-Does index false pc r hand busy)

    after_download-Does :
        {t : Session} (index : ℕ) (d : (Bytes × Option Error) × PeerConnection)
        → Reach sha1 place path ti s t
        → t.hand ≡ s.hand
        → t.busy ≡ index ∷ others
        → (d.0.1 ≡ none → length d.0.0 ≡ piece_size ti index)
        → Yields (Does s others) (after_download sha1 place path ti fuel rounds t index d)
    unfolding after_download
    after_download-Does index ((piece, some e), pc) r hand busy size =
        send_failed-Does index true pc r hand busy
    after_download-Does {t} index ((piece, none), pc) r hand busy size =
        let run = finish_piece sha1 place path ti t index piece in
        Yields-chain (λ v. run ≡ ok v) (Does s others) run _
          (Yields-of (λ v. run ≡ ok v) run (λ v e. e))
          (λ v e. after_check-Does index piece pc v r hand busy (size refl) e)

    work_on-Does :
        {t : Session} (index : ℕ) (pc : PeerConnection)
        → Reach sha1 place path ti s t
        → t.hand ≡ s.hand
        → t.busy ≡ index ∷ others
        → Yields (Does s others) (work_on sha1 place path ti fuel rounds t index pc)
    unfolding work_on
    work_on-Does {t} index pc r hand busy =
        let size = piece_size ti index in
        if_rule (Yields (Does s others)) (not (has_piece pc.bit_field index)) _ _
          (λ missing. send_failed-Does index true pc r hand busy)
          (λ there.
            Yields-chain (λ d. d.0.1 ≡ none → length d.0.0 ≡ size) (Does s others)
              (get_piece place fuel t.disk rounds pc index size) _
              (get_piece-Returns pc index size t.disk)
              (λ d right. after_download-Does index d r hand busy right))

  -- The index that is taken is at work.
  receive-Reach :
      (s : Session) (work : List ℕ)
      → s.work_chan ≡ work
      → let n = receive s work in
        Reach sha1 place path ti s (n.1) × (n.1.hand ≡ s.hand) × (n.1.busy ≡ n.0 ∷ s.busy)
  unfolding receive
  receive-Reach s [] e = (next here (worker (no_work e)), refl, refl)
  receive-Reach s (k ∷ rest) e = (next here (worker (take_work k rest e)), refl, refl)

  after_messages-Does :
      (s : Session) (r : PeerConnection × Option Error)
      → Yields (Does s s.busy) (after_messages sha1 place path ti fuel rounds s r)
  unfolding after_messages
  after_messages-Does s (pc, e) =
      let n = receive s s.work_chan in
      let taken = receive-Reach s s.work_chan refl in
      if_rule (Yields (Does s s.busy)) (is_failure e) _ _ (λ _. (here, refl, refl))
        (λ _.
          if_rule (Yields (Does s s.busy)) pc.choked _ _
            (λ _. Yields-bind (Does s s.busy) (ask_unchoke pc) _ (λ pc'. (here, refl, refl)))
            (λ _. work_on-Does s.busy (n.0) pc (taken.0) (taken.1) (taken.2)))

  -- A round of `handlePeerConnection` that comes to its end, whatever the peer sends meanwhile,
  -- takes the session along steps of the session machine, and leaves the indices that the others
  -- work on.
  pub handle_round-Does :
      (s : Session) (pc : PeerConnection) (r : Round)
      → handle_round sha1 place path ti fuel rounds s pc ≡ ok r
      → Does s s.busy r
  unfolding handle_round
  handle_round-Does s pc r e =
      Yields-at (Does s s.busy) _ r
        (Yields-bind (Does s s.busy) (read_and_handle_messages place fuel s.disk rounds pc) _
          (λ m. after_messages-Does s m))
        e
