-- ===== src/Peer/Metadata/Replies.antt =====
-- The data messages of a peer that has the metadata, and what one of them does
-- (pkg/torrent/extensions.go).
use torrent_client.Common.{
  ℕ, zero, suc, ◌+◌, ◌*◌, ◌%◌, ◌^◌, ◌≤◌, ◌<◌, ◌≡◌, sym, ap, ◌∙◌, true, false, none, some, List, [],
  ◌∷◌, ◌++◌, append-nil, arith, ltb, Bytes, length,
}
use torrent_client.Common.Int.{ℤ, max_int}
use torrent_client.Common.Outcome.{ok}
use torrent_client.Extension.{
  Extensions, MetadataExtensionMessage, metadata_dict, encode_map, frame, handle_metadata,
  handle_extension, copy_at, word, new_request_message, serialize_metadata,
}
use torrent_client.Extension.Metadata.{parse_metadata-metadata_dict}
use torrent_client.Peer.{PeerConnection, Conn, send}
use torrent_client.Peer.Exchange.{handle_message_framed}
use torrent_client.Peer.Framing.{read_message-put_uint32}
use torrent_client.Peer.Handler.{handle_message, handle_payload}
use torrent_client.Peer.Metadata.{or_fail, await_piece, request_pieces}
use torrent_client.Peer.Metadata.Assembly.{chunk, assembled, copy_at-chunk}
use torrent_client.Peer.Reader.{await, read_message, read_and_handle_message}
use torrent_client.Storage.{Disk}
use torrent_client.Torrent.{TorrentFile}
use torrent_client.Wire.{put_uint32}

-- piece `i` of the metadata
unfoldable pub piece_at : Bytes → (i : ℕ) → Bytes
piece_at b i = chunk 16384 b (i * 16384)

-- the data message for piece `i`
abbrev pub data_message : Bytes → (i : ℕ) → MetadataExtensionMessage
data_message b i = record {
  extension_msg_id = ℤ.pos 3;
  msg_type = ℤ.pos 1;
  piece = ℤ.pos i;
  metadata_piece = [];
  total_size = ℤ.pos (length b);
}

abbrev pub data_body : Bytes → (i : ℕ) → Bytes
data_body b i = encode_map (metadata_dict (data_message b i)) ++ piece_at b i

-- The messages for the `n` pieces from `i` on.
unfoldable pub replies : Bytes → (i n : ℕ) → List Bytes
unfolding frame
replies b i zero = []
replies b i (suc n) = let rest = replies b (i + 1) n in frame 3 (data_body b i) ∷ rest

pub handle_metadata-data_body :
    (be : Extensions) (b : Bytes) (i : ℕ)
    → be.requested_metadata ≡ assembled b (i * 16384)
    → i * 16384 ≤ length b
    → length b ≤ max_int
    → handle_metadata be (data_body b i)
      ≡ ok (record be {
        requested_metadata = assembled b (i * 16384 + 16384);
        pieces_received = be.pieces_received + 1;
      })
unfolding handle_metadata word
handle_metadata-data_body be b i has inside small =
    let parsed =
      parse_metadata-metadata_dict (data_message b i) (piece_at b i)
        (record { msg_type = omega arith; piece = omega arith; total_size = omega arith }) in
    let at : i % 2 ^ 64 * 16384 % 2 ^ 64 ≡ i * 16384 = omega arith in
    let copied : copy_at (assembled b (i * 16384)) (i * 16384) (piece_at b i)
        ≡ ok (assembled b (i * 16384 + 16384)) =
      unfold piece_at in copy_at-chunk 16384 b (i * 16384) inside in
    rw (handle_metadata, parsed, at, has, copied)

module _ (place : TorrentFile → ℕ) (fuel : ℕ) (disk : Disk) where
  handle_message-frame :
      (pc : PeerConnection) (body : Bytes) (be : Extensions)
      → length body + 2 < 2 ^ 32
      → handle_metadata pc.extensions body ≡ ok be
      → handle_message place fuel disk pc (frame 3 body) ≡ ok (record pc { extensions = be }, none)
  unfolding frame handle_payload handle_extension
  handle_message-frame pc body be small h =
      let n = (length body + 2) % 2 ^ 32 in
      handle_message_framed place fuel disk pc n 20 (3 ∷ body) (omega arith) (omega arith) ∙ rw h

  pub read_and_handle_message-frame :
      (pc : PeerConnection) (c : Conn) (body : Bytes) (later : List Bytes) (be : Extensions)
      → pc.conn ≡ some c
      → c.arrived ≡ []
      → c.arrivals ≡ frame 3 body ∷ later
      → length body + 6 < 2 ^ 32
      → handle_metadata pc.extensions body ≡ ok be
      → read_and_handle_message place fuel disk pc
        ≡ ok (
          record pc { conn = some (record c { arrived = []; arrivals = later }); extensions = be },
          none,
        )
  unfolding read_and_handle_message
  read_and_handle_message-frame pc c body later be hc ha hl small h =
      let whole = 20 ∷ 3 ∷ body in
      let c' = record c { arrived = []; arrivals = later } in
      let pc' = record pc { conn = some c' } in
      let n : (length body + 2) % 2 ^ 32 ≡ length whole = omega arith in
      let msg : frame 3 body ≡ put_uint32 (length whole) ++ whole =
        unfold frame in ap (λ k. put_uint32 k ++ whole) n in
      let waited : await c ≡ record c { arrived = frame 3 body; arrivals = later } =
        unfold await in rw (await, hl, ha) in
      let arrives : (await c).arrived ≡ put_uint32 (length whole) ++ (whole ++ []) =
        ap (λ x. x.arrived) waited
        ∙ msg
        ∙ ap (λ t. put_uint32 (length whole) ++ t) (sym (append-nil whole)) in
      let read : read_message pc ≡ ok ((frame 3 body, none), pc') =
        read_message-put_uint32 pc c whole [] hc arrives (omega arith)
        ∙ ap (λ m. ok ((m, none), record pc { conn = some (record (await c) { arrived = [] }) }))
            (sym msg)
        ∙ ap (λ x. ok ((frame 3 body, none), record pc { conn = some (record x { arrived = [] }) }))
            waited in
      rw (read_and_handle_message, read, handle_message-frame pc' body be (omega arith) h)

  pub send-works :
      (pc : PeerConnection) (c : Conn) (msg : Bytes)
      → pc.conn ≡ some c
      → c.faults (length c.sent) ≡ false
      → send pc msg
        ≡ ok (record pc { conn = some (record c { sent = c.sent ++ (msg ∷ []) }) }, none)
  unfolding send
  send-works pc c msg h works = rw (h, works)

  pub await_piece-done :
      (rounds r i : ℕ) (pc : PeerConnection)
      → ltb i pc.extensions.pieces_received ≡ true
      → await_piece place fuel disk rounds r i pc ≡ ok (pc, none)
  unfolding await_piece
  await_piece-done rounds zero i pc h = rw h
  await_piece-done rounds (suc r) i pc h = rw (await_piece, h)

  pub request_pieces_step :
      (rounds : ℕ) (id : ℤ) (i m : ℕ) (p p1 p2 : PeerConnection)
      → send p (serialize_metadata (new_request_message id (ℤ.pos i))) ≡ ok (p1, none)
      → await_piece place fuel disk rounds rounds i p1 ≡ ok (p2, none)
      → request_pieces place fuel disk rounds id i (suc m) p
        ≡ request_pieces place fuel disk rounds id (i + 1) m p2
  unfolding request_pieces or_fail
  request_pieces_step rounds id i m p p1 p2 sends waits = rw (sends, waits)
