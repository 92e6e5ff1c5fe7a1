-- ===== src/Peer/Metadata/Sized.antt =====
-- What the handshake and the fetch of metadata leave of a connection
-- (pkg/torrent/peerprotocol.go, pkg/torrent/extensions.go).
use torrent_client.Common.{
  ℕ, zero, suc, ◌+◌, inl, inr, true, false, not, ◌||◌, Option, none, some, ltb, ◌==◌, if◌then◌else◌,
  Bool-cases, Option-cases, Bytes, codes, length, get_or, if_rule,
}
use torrent_client.Bencode.Value.{eq_bytes}
use torrent_client.Common.Int.{ℤ}
use torrent_client.Common.Outcome.{ok, Error, Yields, Yields-bind, Yields-chain}
use torrent_client.Extension.{new_request_message, serialize_metadata}
use torrent_client.Peer.{
  PeerConnection, Conn, Step, send, send_interested, send_unchoke, send_extension_handshake,
  send_bitfield, short_message,
}
use torrent_client.Peer.Download.Messages.{IsSized, Sized, send-Sized}
use torrent_client.Peer.Download.Size.{
  read_on-IsRead, handle_message-Sized, read_and_handle_message-Sized,
}
use torrent_client.Peer.Handshake.{
  checked_response, connected, slice, pstr, handshake, try_connect, get_handshake_message,
  read_response, read_blocking, handle_response, handle_handshake_response, send_first,
}
use torrent_client.Peer.Handler.{handle_message}
use torrent_client.Peer.Reader.{
  or_stop, after_reading, read_message, read_and_handle_message, read_and_handle_messages,
}
use torrent_client.Peer.Metadata.{
  MetadataResult, or_fail, start_metadata, await_piece, request_pieces, fetch_metadata, with_id,
  get_metadata, supported,
}
use torrent_client.Session.Worker.{ask_unchoke}
use torrent_client.Storage.{Disk}
use torrent_client.Torrent.{TorrentFile}

module _ (n : ℕ × Bytes) where
  pub ask_unchoke-Sized : (pc : PeerConnection) → IsSized n pc → Yields (IsSized n) (ask_unchoke pc)
  unfolding ask_unchoke send_interested send_unchoke
  ask_unchoke-Sized pc h =
      Yields-chain (λ a. IsSized n a.0) (IsSized n) (send_interested pc) _
        (send-Sized n (record pc { interested = true }) (short_message 2) h)
        (λ a h'.
          Yields-chain (λ b. IsSized n b.0) (IsSized n) (send_unchoke (a.0)) _
            (send-Sized n (record (a.0) { peer_choked = false }) (short_message 1) h')
            (λ b h''. h''))

  send_first-Sized : (pc : PeerConnection) → IsSized n pc → Sized n (send_first pc)
  unfolding send_first send_extension_handshake send_bitfield
  send_first-Sized pc h =
      Yields-chain (λ a. IsSized n a.0) (λ a. IsSized n a.0)
        (if pc.extensions.supports_extensions then send_extension_handshake pc else ok (pc, none)) _
        (if_rule (Sized n) pc.extensions.supports_extensions _ _ (λ _. send-Sized n pc _ h)
          (λ _. h))
        (λ a h'.
          Yields-chain (λ b. IsSized n b.0) (λ b. IsSized n b.0)
            (if length pc.node_bitfield.bitfield == 0 then ok (a.0, none) else send_bitfield (a.0))
            _
            (if_rule (Sized n) (length pc.node_bitfield.bitfield == 0) _ _ (λ _. h')
              (λ _. send-Sized n (a.0) _ h'))
            (λ b h''. h''))

  handle_handshake_response-Sized :
      (pc : PeerConnection) (msg : Bytes)
      → IsSized n pc
      → IsSized n ((handle_handshake_response pc msg).0)
  unfolding handle_handshake_response
  handle_handshake_response-Sized pc msg h =
      let P = λ (r : PeerConnection × Option Error). IsSized n (r.0) in
      if_rule P (not (length msg == 68)) _ _ (λ _. h)
        (λ _.
          if_rule P (not (get_or msg 0 0 == 19) || not (eq_bytes (slice msg 1 20) pstr)) _ _
            (λ _. h)
            (λ _. if_rule P (not (eq_bytes (slice msg 28 48) pc.info_hash)) _ _ (λ _. h) (λ _. h)))

  checked_response-Sized :
      (r : PeerConnection × Option Error) → IsSized n (r.0) → Sized n (checked_response r)
  unfolding checked_response
  checked_response-Sized (pc, some e) h = h
  checked_response-Sized (pc, none) h = send_first-Sized pc h

  handle_response-Sized :
      (pc : PeerConnection) (r : (Bytes × Option Error) × Conn)
      → IsSized n pc
      → Sized n (handle_response pc r)
  unfolding handle_response
  handle_response-Sized pc ((buf, some e), c) h = h
  handle_response-Sized pc ((buf, none), c) h =
      checked_response-Sized (handle_handshake_response (record pc { conn = some c }) buf)
        (handle_handshake_response-Sized (record pc { conn = some c }) buf h)

  read_response-Sized :
      (r : PeerConnection × Option Error) → IsSized n (r.0) → Sized n (read_response r)
  unfolding read_response
  read_response-Sized (pc, some e) h = h
  read_response-Sized (pc, none) h = elim (Option-cases pc.conn) [
    | inl e ↦ rw (read_response, e) tt
    | inr (c, e) ↦
        rw (read_response, e)
          (Yields-bind (λ r. IsSized n r.0) (read_blocking c.arrivals c 68) _
            (λ r. handle_response-Sized pc r h))
  ]

  connected-Sized : (r : PeerConnection × Option Error) → IsSized n (r.0) → Sized n (connected r)
  unfolding connected
  connected-Sized (pc, some e) h = h
  connected-Sized (pc, none) h =
      Yields-chain (λ r. IsSized n r.0) (λ r. IsSized n r.0) (send pc (get_handshake_message pc)) _
        (send-Sized n pc (get_handshake_message pc) h) (λ r h'. read_response-Sized r h')

  try_connect-Sized :
      (dial : Option Conn) (pc : PeerConnection)
      → IsSized n pc
      → IsSized n ((try_connect dial pc).0)
  unfolding try_connect
  try_connect-Sized dial pc h = elim (Option-cases pc.conn) [
    | inr (c, e) ↦ rw (try_connect, e) h
    | inl e ↦ elim (Option-cases dial) [
      | inl e' ↦ rw (try_connect, e, e') h
      | inr (c, e') ↦ rw (try_connect, e, e') h
    ]
  ]

  -- The handshake keeps the hash of the connection's torrent.
  pub handshake-Sized :
      (dial : Option Conn) (pc : PeerConnection) → IsSized n pc → Sized n (handshake dial pc)
  unfolding handshake
  handshake-Sized dial pc h = connected-Sized (try_connect dial pc) (try_connect-Sized dial pc h)

  module _ (place : TorrentFile → ℕ) (fuel : ℕ) (disk : Disk) where
    or_stop-Sized :
        (r : PeerConnection × Option Error) (continue : PeerConnection → Step)
        → IsSized n (r.0)
        → ((pc : PeerConnection) → IsSized n pc → Sized n (continue pc))
        → Sized n (or_stop r continue)
    unfolding or_stop
    or_stop-Sized (pc, none) continue h k = k pc h
    or_stop-Sized (pc, some e) continue h k = h

    after_reading-Sized :
        (r : (Bytes × Option Error) × PeerConnection) (continue : PeerConnection → Step)
        → IsSized n (r.1)
        → ((pc : PeerConnection) → IsSized n pc → Sized n (continue pc))
        → Sized n (after_reading place fuel disk r continue)
    unfolding after_reading
    after_reading-Sized ((msg, none), pc) continue h k =
        Yields-chain (λ r. IsSized n r.0) (λ r. IsSized n r.0)
          (handle_message place fuel disk pc msg) _
          (handle_message-Sized n place fuel disk pc msg h) (λ r h'. or_stop-Sized r continue h' k)
    after_reading-Sized ((msg, some e), pc) continue h k = h

    pub read_and_handle_messages-Sized :
        (rounds : ℕ) (pc : PeerConnection)
        → IsSized n pc
        → Sized n (read_and_handle_messages place fuel disk rounds pc)
    unfolding read_and_handle_messages read_message
    read_and_handle_messages-Sized zero pc h = tt
    read_and_handle_messages-Sized (suc rounds) pc h =
        Yields-chain (λ r. IsSized n r.1) (λ r. IsSized n r.0) (read_message pc) _
          (read_on-IsRead n pc pc.conn h)
          (λ r h'.
            after_reading-Sized r _ h' (λ pc' h''. read_and_handle_messages-Sized rounds pc' h''))

    module _ (rounds : ℕ) where
      await_piece-Sized :
          (m i : ℕ) (pc : PeerConnection)
          → IsSized n pc
          → Sized n (await_piece place fuel disk rounds m i pc)
      unfolding await_piece
      await_piece-Sized zero i pc h =
          if_rule (Sized n) (ltb i pc.extensions.pieces_received) _ _ (λ _. h) (λ _. tt)
      await_piece-Sized (suc m) i pc h = elim (Bool-cases (ltb i pc.extensions.pieces_received)) [
        | inl come ↦ rw (await_piece, come) h
        | inr waiting ↦
            rw (await_piece, waiting)
              (Yields-chain (λ r. IsSized n r.0) (λ r. IsSized n r.0)
                (read_and_handle_message place fuel disk pc) _
                (read_and_handle_message-Sized n place fuel disk pc h)
                (λ r h'. or_stop-Sized r _ h' (λ pc' h''. await_piece-Sized m i pc' h'')))
      ]

      abbrev Fetches : MetadataResult → Type 0
      Fetches = Yields (λ r. IsSized n r.1)

      or_fail-Fetches :
          (r : PeerConnection × Option Error) (continue : PeerConnection → MetadataResult)
          → IsSized n r.0
          → ((pc : PeerConnection) → IsSized n pc → Fetches (continue pc))
          → Fetches (or_fail r continue)
      unfolding or_fail
      or_fail-Fetches (pc, none) continue h k = k pc h
      or_fail-Fetches (pc, some e) continue h k = h

      request_pieces-Fetches :
          (id : ℤ) (i m : ℕ) (pc : PeerConnection)
          → IsSized n pc
          → Fetches (request_pieces place fuel disk rounds id i m pc)
      unfolding request_pieces
      request_pieces-Fetches id i zero pc h = h
      request_pieces-Fetches id i (suc m) pc h =
          Yields-chain (λ r. IsSized n r.0) (λ r. IsSized n r.1)
            (send pc (serialize_metadata (new_request_message id (ℤ.pos i)))) _
            (send-Sized n pc _ h)
            (λ r h'. or_fail-Fetches r _ h' (λ pc' h1.
              Yields-chain (λ q. IsSized n q.0) (λ q. IsSized n q.1)
                (await_piece place fuel disk rounds rounds i pc') _
                (await_piece-Sized rounds i pc' h1)
                (λ q h2.
                  or_fail-Fetches q _ h2 (λ pc'' h3. request_pieces-Fetches id (i + 1) m pc'' h3))))

      fetch_metadata-Fetches :
          (id size : ℤ) (pc : PeerConnection)
          → IsSized n pc
          → Fetches (fetch_metadata place fuel disk rounds id size pc)
      unfolding fetch_metadata start_metadata
      fetch_metadata-Fetches id (ℤ.negsuc k) pc h = tt
      fetch_metadata-Fetches id (ℤ.pos k) pc h =
          request_pieces-Fetches id 0 _ (start_metadata pc k) h

      with_id-Fetches :
          (o : Option ℤ) (pc : PeerConnection)
          → IsSized n pc
          → Fetches (with_id place fuel disk rounds o pc)
      unfolding with_id
      with_id-Fetches none pc h = h
      with_id-Fetches (some id) pc h =
          if_rule Fetches (not pc.extensions.supports_extensions) _ _ (λ _. h)
            (λ _. fetch_metadata-Fetches id pc.extensions.metadata_size pc h)

      -- `getMetadata` keeps the hash of the connection's torrent.
      pub get_metadata-Fetches :
          (pc : PeerConnection)
          → IsSized n pc
          → Yields (λ r. IsSized n r.1) (get_metadata place fuel disk rounds pc)
      unfolding get_metadata
      get_metadata-Fetches pc h =
          with_id-Fetches (supported (codes "ut_metadata") pc.extensions.supported_extensions) pc h
