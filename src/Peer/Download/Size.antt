-- ===== src/Peer/Download/Size.antt =====
-- The size of the piece that `getPiece` returns (pkg/torrent/peerprotocol.go), through every message
-- that is handled meanwhile.
use torrent_client.Common.{
  ℕ, zero, suc, ◌+◌, ◌-◌, ◌*◌, ◌%◌, ◌^◌, ◌≡◌, refl, inl, inr, ◌&&◌, Option, none, some, arith, ltb,
  leb, ◌==◌, Bool-cases, Bytes, length, take, drop, length-replicate, if_rule,
}
use torrent_client.Common.Outcome.{
  Yields, Yields-bind, Yields-chain, Outcome, ok, err, panic, no_fuel, Error, check,
}
use torrent_client.Peer.{PeerConnection, Conn, send, request_block, request_message}
use torrent_client.Peer.Download.{
  start_request, get_piece_loop, get_piece, block_length, has_room, got_all_blocks, request_next,
  after_message,
}
use torrent_client.Peer.Handler.{drop_error, handle_body, handle_message, first}
use torrent_client.Peer.Reader.{
  Reading, read_message, read_and_handle_message, join_body, read_body, read_behind_header, read_on,
  read_full, await,
}
use torrent_client.Storage.{Disk}
use torrent_client.Wire.{uint32}
use torrent_client.Torrent.{TorrentFile, ceil_div}
use torrent_client.Peer.Download.Messages.{
  IsSized, Sized, drop_error-Sized, send-Sized, handle_payload-Sized,
}

module _ (n : ℕ × Bytes) where
  -- What reading leaves: the buffer and the hash are still the same.
  abbrev pub IsRead : Reading → Type 0
  IsRead = Yields (λ r. IsSized n r.1)

  join_body-IsRead :
      (pc : PeerConnection) (head : Bytes) (r : (Bytes × Option Error) × Conn)
      → IsSized n pc
      → IsRead (join_body pc head r)
  unfolding join_body
  join_body-IsRead pc head ((body, none), c) h = h
  join_body-IsRead pc head ((body, some e), c) h = h

  read_behind_header-IsRead :
      (pc : PeerConnection) (r : (Bytes × Option Error) × Conn)
      → IsSized n pc
      → IsRead (read_behind_header pc r)
  unfolding read_behind_header read_body
  read_behind_header-IsRead pc ((head, some e), c) h = h
  read_behind_header-IsRead pc ((head, none), c) h =
      Yields-bind (λ r. IsSized n r.1) (uint32 head) _
        (λ len.
          Yields-bind (λ r. IsSized n r.1) (check (leb 4 ((len + 4) % 2 ^ 32))) _
            (λ _. join_body-IsRead pc head (read_full c ((len + 4) % 2 ^ 32 - 4)) h))

  pub read_on-IsRead :
      (pc : PeerConnection) (c : Option Conn) → IsSized n pc → IsRead (read_on pc c)
  unfolding read_on
  read_on-IsRead pc none h = tt
  read_on-IsRead pc (some c) h = read_behind_header-IsRead pc (read_full (await c) 4) h

  module _ (place : TorrentFile → ℕ) (fuel : ℕ) (disk : Disk) where
    handle_body-Sized :
        (pc : PeerConnection) (msg : Bytes) (len : ℕ)
        → IsSized n pc
        → Sized n (handle_body place fuel disk pc msg len)
    unfolding handle_body
    handle_body-Sized pc msg zero h = h
    handle_body-Sized pc msg (suc k) h =
        Yields-bind (λ r. IsSized n r.0) (first (drop 4 msg)) _
          (λ id.
            Yields-bind (λ r. IsSized n r.0) (check (leb (5 + k) (length msg))) _
              (λ _. handle_payload-Sized n place fuel disk pc (take k (drop 5 msg)) h id))

    pub handle_message-Sized :
        (pc : PeerConnection) (msg : Bytes)
        → IsSized n pc
        → Sized n (handle_message place fuel disk pc msg)
    unfolding handle_message
    handle_message-Sized pc msg h =
        Yields-bind (λ r. IsSized n r.0) (uint32 msg) _ (λ len. handle_body-Sized pc msg len h)

    after_read-Sized :
        (r : Reading)
        → IsRead r
        → Sized n (elim r [
          | ok ((msg, none), pc') ↦ handle_message place fuel disk pc' msg
          | ok ((msg, some e), pc') ↦ ok (pc', some e)
          | err e ↦ err e
          | panic ↦ panic
          | no_fuel ↦ no_fuel
        ])
    after_read-Sized (ok ((msg, none), pc')) h = handle_message-Sized pc' msg h
    after_read-Sized (ok ((msg, some e), pc')) h = h
    after_read-Sized (err e) h = tt
    after_read-Sized panic h = tt
    after_read-Sized no_fuel h = tt

    pub read_and_handle_message-Sized :
        (pc : PeerConnection) → IsSized n pc → Sized n (read_and_handle_message place fuel disk pc)
    unfolding read_and_handle_message read_message
    read_and_handle_message-Sized pc h =
        after_read-Sized (read_message pc) (read_on-IsRead pc pc.conn h)

    -- What the loop returns without an error has `n.0` bytes.
    abbrev Returns : Outcome ((Bytes × Option Error) × PeerConnection) → Type 0
    Returns = Yields (λ r. r.0.1 ≡ none → length r.0.0 ≡ n.0)

    after_message-Returns :
        (r : PeerConnection × Option Error)
        (continue : PeerConnection → Outcome ((Bytes × Option Error) × PeerConnection))
        → IsSized n r.0
        → ((pc : PeerConnection) → IsSized n pc → Returns (continue pc))
        → Returns (after_message r continue)
    after_message-Returns (pc, none) continue h k = k pc h
    after_message-Returns (pc, some e) continue h k = λ e. absurd (ground arith)

    request_next-Sized :
        (pc : PeerConnection) (index size blocks i : ℕ)
        → IsSized n pc
        → Yields (IsSized n) (request_next pc index size blocks i)
    unfolding request_next request_block
    request_next-Sized pc index size blocks i h =
        let msg = request_message index (i * pc.request.block_size) (block_length size blocks i) in
        Yields-chain (IsSized n) (IsSized n) (drop_error (send pc msg)) _
          (drop_error-Sized n (send pc msg) (send-Sized n pc msg h))
          (λ pc' h'.
            Yields-bind (IsSized n) (check (ltb i (length pc'.request.blocks_state))) _ (λ _. h'))

    get_piece_loop-Returns :
        (rounds : ℕ) (pc : PeerConnection) (index size blocks i : ℕ)
        → IsSized n pc
        → Returns (get_piece_loop place fuel disk rounds pc index size blocks i)
    unfolding get_piece_loop
    get_piece_loop-Returns zero pc index size blocks i h = tt
    get_piece_loop-Returns (suc rounds) pc index size blocks i h =
        elim (Bool-cases (has_room pc.request.blocks_requesting && ltb i blocks)) [
          | inl more ↦
              rw (get_piece_loop, more)
                (Yields-chain (IsSized n) (λ r. r.0.1 ≡ none → length r.0.0 ≡ n.0) _ _
                  (request_next-Sized pc index size blocks i h)
                  (λ pc' h'. get_piece_loop-Returns rounds pc' index size blocks (i + 1) h'))
          | inr none_left ↦ elim (Bool-cases (got_all_blocks pc.request.blocks_state)) [
            | inl all ↦ rw (get_piece_loop, none_left, all) (λ e. h.0)
            | inr waiting ↦
                rw (get_piece_loop, none_left, waiting)
                  (Yields-chain (λ r. IsSized n r.0) (λ r. r.0.1 ≡ none → length r.0.0 ≡ n.0)
                    (read_and_handle_message place fuel disk pc) _
                    (read_and_handle_message-Sized pc h)
                    (λ r h'.
                      after_message-Returns r _ h'
                        (λ pc' h''. get_piece_loop-Returns rounds pc' index size blocks i h'')))
          ]
        ]

start_request-IsSized :
    (pc : PeerConnection) (index size : ℕ)
    → IsSized (size, pc.info_hash) (start_request pc index size)
unfolding start_request
start_request-IsSized pc index size =
    if_rule (λ (b : Bytes). (length b ≡ size) × (pc.info_hash ≡ pc.info_hash))
      (length pc.request.piece == size) _ _ (λ same. (ground arith, refl))
      (λ other. (length-replicate size 0, refl))

returned :
    (n : ℕ) (r : Outcome ((Bytes × Option Error) × PeerConnection)) (piece : Bytes)
    (pc : PeerConnection)
    → Yields (λ r. r.0.1 ≡ none → length r.0.0 ≡ n) r
    → r ≡ ok ((piece, none), pc)
    → length piece ≡ n
returned n r piece pc y e = let y' = rw e at y in y' refl

-- Where `getPiece` returns a piece and no error, the piece has the size that was asked for, whatever
-- messages came meanwhile, in whatever order, and whatever an earlier download left.
pub get_piece-IsSized :
    (place : TorrentFile → ℕ) (fuel : ℕ) (disk : Disk) (rounds : ℕ) (pc : PeerConnection)
    (piece_index piece_size : ℕ) (piece : Bytes) (pc' : PeerConnection)
    → get_piece place fuel disk rounds pc piece_index piece_size ≡ ok ((piece, none), pc')
    → length piece ≡ piece_size
unfolding get_piece
get_piece-IsSized place fuel disk rounds pc index size piece pc' e =
    returned size (get_piece place fuel disk rounds pc index size) piece pc'
      (get_piece_loop-Returns (size, pc.info_hash) place fuel disk rounds
        (start_request pc index size) index size (ceil_div size 16384) 0
        (start_request-IsSized pc index size))
      e
