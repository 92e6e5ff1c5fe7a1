-- ===== src/Peer/Download/Messages.antt =====
-- What the handlers of messages leave of the buffer of a piece and of the hash of the torrent (pkg/torrent/peerprotocol.go).
use torrent_client.Common.{
  ℕ, ◌/◌, ◌%◌, ◌^◌, ◌≡◌, ◌∙◌, inl, inr, Bool, true, false, some, arith, ltb, leb, ◌==◌,
  if◌then◌else◌, leb→le, Bool-cases, Option-cases, Bytes, length, take, drop, length-append,
  length-take, length-drop,
}
use torrent_client.Cache.{get_piece_block}
use torrent_client.Common.Outcome.{Yields, Yields-bind, Yields-chain, Outcome, check}
use torrent_client.Extension.{copy_at, handle_extension}
use torrent_client.Peer.{PeerConnection, Step, send, send_unchoke, piece_message, short_message}
use torrent_client.Peer.Handler.{
  drop_error, done, handle_payload, handle_request, handle_cancel, handle_piece, handle_have,
  handle_interested, store_block, send_piece, number_at, slice_from,
}
use torrent_client.Storage.{Disk}
use torrent_client.Wire.{uint32}
use torrent_client.Bitfield.{copy_into}
use torrent_client.Torrent.{TorrentFile}

length-copy_into : (dst src : Bytes) → length (copy_into dst src) ≡ length dst
unfolding copy_into
length-copy_into dst src = omega (
  arith,
  length-append (take (length dst) src) (drop (length src) dst),
  length-take (length dst) src,
  length-drop (length src) dst,
)

-- `copy` does not change the size of a slice.
length-copy_at :
    (s : Bytes) (off : ℕ) (b : Bytes) → Yields (λ p. length p ≡ length s) (copy_at s off b)
unfolding copy_at
length-copy_at s off b = elim (Bool-cases (leb off (length s))) [
  | inr out ↦ rw out tt
  | inl inside ↦ rw inside (
      let l = leb→le _ _ inside in
      omega (
        arith,
        length-append (take off s) (copy_into (drop off s) b),
        length-take off s,
        length-drop off s,
        length-copy_into (drop off s) b,
      ))
]

-- The buffer of the piece has `n.0` bytes, and the connection is for the torrent with the hash `n.1`.
abbrev pub IsSized : ℕ × Bytes → PeerConnection → Type 0
IsSized n pc = (length pc.request.piece ≡ n.0) × (pc.info_hash ≡ n.1)

module _ (n : ℕ × Bytes) where
  abbrev pub Sized : Step → Type 0
  Sized = Yields (λ r. IsSized n r.0)

  pub drop_error-Sized : (s : Step) → Sized s → Yields (IsSized n) (drop_error s)
  drop_error-Sized s h = Yields-chain (λ r. IsSized n r.0) (IsSized n) s _ h (λ r e. e)

  done-Sized : (m : Outcome PeerConnection) → Yields (IsSized n) m → Sized (done m)
  done-Sized m h = Yields-chain (IsSized n) (λ r. IsSized n r.0) m _ h (λ pc e. e)

  pub send-Sized : (pc : PeerConnection) (msg : Bytes) → IsSized n pc → Sized (send pc msg)
  unfolding send
  send-Sized pc msg h = elim (Option-cases pc.conn) [
    | inl e ↦ rw (send, e) tt
    | inr (c, e) ↦ elim (Bool-cases (c.faults (length c.sent))) [
      | inl fails ↦ rw (send, e, fails) h
      | inr works ↦ rw (send, e, works) h
    ]
  ]

  if-Sized : (b : Bool) (x y : Step) → Sized x → Sized y → Sized (if b then x else y)
  if-Sized true x y hx hy = hx
  if-Sized false x y hx hy = hy

  module _ (place : TorrentFile → ℕ) (fuel : ℕ) (disk : Disk) (pc : PeerConnection)
      (payload : Bytes) (h : IsSized n pc) where
    send_piece-Sized : (index begin len : ℕ) → Sized (send_piece place fuel disk pc index begin len)
    unfolding send_piece
    send_piece-Sized index begin len = elim (Option-cases pc.piece_cache) [
      | inl e ↦ rw (send_piece, e) tt
      | inr (c, e) ↦
          rw (send_piece, e)
            (Yields-bind (λ r. IsSized n r.0) (get_piece_block place fuel disk c index begin len) _
              (λ r.
                send-Sized (record pc { piece_cache = some r.1 }) (piece_message index begin r.0)
                  h))
    ]

    handle_request-Sized : Yields (IsSized n) (handle_request place fuel disk pc payload)
    unfolding handle_request
    handle_request-Sized = Yields-bind (IsSized n) (uint32 payload) _ (λ index.
        Yields-bind (IsSized n) (number_at payload 4) _ (λ begin.
          Yields-bind (IsSized n) (number_at payload 8) _
            (λ len. drop_error-Sized _ (send_piece-Sized index begin len))))

    handle_cancel-Sized : Yields (IsSized n) (handle_cancel pc payload)
    unfolding handle_cancel
    handle_cancel-Sized = Yields-bind (IsSized n) (uint32 payload) _ (λ index.
        Yields-bind (IsSized n) (number_at payload 4) _
          (λ begin. Yields-bind (IsSized n) (number_at payload 8) _ (λ len. h)))

    store_block-Sized :
        (begin : ℕ) (block : Bytes) → Yields (IsSized n) (store_block pc begin block)
    unfolding store_block
    store_block-Sized begin block =
        Yields-chain (λ p. length p ≡ length pc.request.piece) (IsSized n)
          (copy_at pc.request.piece begin block) _ (length-copy_at pc.request.piece begin block)
          (λ piece e.
            Yields-bind (IsSized n) (check (ltb 0 (pc.request.block_size % 2 ^ 32))) _ (λ _.
              Yields-bind (IsSized n)
                (check
                  (ltb (begin / (pc.request.block_size % 2 ^ 32)) (length pc.request.blocks_state)))
                _ (λ _. (e ∙ h.0, h.1))))

    handle_piece-Sized : Yields (IsSized n) (handle_piece pc payload)
    unfolding handle_piece
    handle_piece-Sized = Yields-bind (IsSized n) (uint32 payload) _ (λ index.
        Yields-bind (IsSized n) (number_at payload 4) _ (λ begin.
          Yields-bind (IsSized n) (slice_from payload 8) _
            (λ block. store_block-Sized begin block)))

    handle_have-Sized : Yields (IsSized n) (handle_have pc payload)
    unfolding handle_have
    handle_have-Sized = Yields-bind (IsSized n) (uint32 payload) _ (λ index. h)

    handle_interested-Sized : Yields (IsSized n) (handle_interested pc)
    unfolding handle_interested send_unchoke
    handle_interested-Sized =
        let pc' : PeerConnection = record pc { peer_interested = true; peer_choked = false } in
        drop_error-Sized (send pc' (short_message 1)) (send-Sized pc' (short_message 1) h)

    pub handle_payload-Sized : (id : ℕ) → Sized (handle_payload place fuel disk pc id payload)
    unfolding handle_payload
    handle_payload-Sized id = if-Sized (id == 0) _ _ h (
        if-Sized (id == 1) _ _ h (
          if-Sized (id == 2) _ _ (done-Sized _ handle_interested-Sized) (
            if-Sized (id == 3) _ _ h (
              if-Sized (id == 4) _ _ (done-Sized _ handle_have-Sized) (
                if-Sized (id == 5) _ _ h (
                  if-Sized (id == 6) _ _ (done-Sized _ handle_request-Sized) (
                    if-Sized (id == 7) _ _ (done-Sized _ handle_piece-Sized) (
                      if-Sized (id == 8) _ _ (done-Sized _ handle_cancel-Sized) (
                        if-Sized (id == 20) _ _
                          (done-Sized _ (
                            Yields-bind (IsSized n) (handle_extension pc.extensions payload) _
                              (λ be. h)))
                          h)))))))))
