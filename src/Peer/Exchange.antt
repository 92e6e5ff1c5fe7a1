-- ===== src/Peer/Exchange.antt =====
-- Messages that one client sends and another one handles.
use torrent_client.Common.{
  ℕ, suc, ◌+◌, ◌-◌, ◌%◌, ◌^◌, ◌≤◌, ◌<◌, ◌≡◌, refl, ap, ◌∙◌, true, false, none, some, [], ◌∷◌, ◌++◌,
  arith, leb, le→leb, Bytes, length, take, drop, take_whole,
}
use torrent_client.Common.Outcome.{ok, ◌>>=◌}
use torrent_client.Cache.{PieceCache, get_piece, get_piece_block}
use torrent_client.Cache.Transparent.{Serves, expected}
use torrent_client.Peer.{
  PeerConnection, Conn, bitfield_message, request_message, piece_message, send,
}
use torrent_client.Peer.Blocks.{
  Awaits, stored, second_number, third_number, handle_piece-Awaits, request_message_small,
  piece_message_small, length_two, handle_bit_field_own,
}
use torrent_client.Peer.Handler.{
  done, drop_error, handle_message, handle_body, handle_payload, handle_piece, number_at,
  handle_request, send_piece,
}
use torrent_client.Storage.{Disk}
use torrent_client.Torrent.{TorrentFile}
use torrent_client.Wire.{put_uint32, uint32}
use torrent_client.Wire.Laws.{uint32-put, length-put_uint32}

module _ (place : TorrentFile → ℕ) (fuel : ℕ) (disk : Disk) where
  body_framed :
      (pc : PeerConnection) (n id : ℕ) (payload : Bytes)
      → handle_body place fuel disk pc (put_uint32 n ++ (id ∷ payload)) (suc (length payload))
        ≡ handle_payload place fuel disk pc id payload
  unfolding handle_body put_uint32
  body_framed pc n id payload =
      let inside : leb (5 + length payload) (length (put_uint32 n ++ (id ∷ payload))) ≡ true =
        ground arith in
      rw (inside, take_whole payload)

  -- a message that is framed by its length
  pub handle_message_framed :
      (pc : PeerConnection) (n id : ℕ) (payload : Bytes)
      → n ≡ 1 + length payload
      → n < 2 ^ 32
      → handle_message place fuel disk pc (put_uint32 n ++ (id ∷ payload))
        ≡ handle_payload place fuel disk pc id payload
  unfolding handle_message
  handle_message_framed pc n id payload e small =
      let counts : n ≡ suc (length payload) = omega arith in
      ap (λ m. m >>= handle_body place fuel disk pc (put_uint32 n ++ (id ∷ payload)))
        (uint32-put n (id ∷ payload) small)
      ∙ ap (handle_body place fuel disk pc (put_uint32 n ++ (id ∷ payload))) counts
      ∙ body_framed pc n id payload

  -- The bitfield message of a client sets the pieces of the peer to the ones that the client has,
  -- whatever the receiver held before, if the bitfield has less than 2^32 - 1 bytes.
  pub handle_message-bitfield_message :
      (pc : PeerConnection) (bf : Bytes)
      → length bf < 2 ^ 32 - 1
      → handle_message place fuel disk pc (bitfield_message bf)
        ≡ ok (record pc { bit_field = bf }, none)
  unfolding handle_payload
  handle_message-bitfield_message pc bf small =
      let wrapped : (1 + length bf) % 2 ^ 32 ≡ 1 + length bf = omega arith in
      handle_message_framed pc ((1 + length bf) % 2 ^ 32) 5 bf wrapped (omega arith)
      ∙ ap (λ p. ok (p, none)) (handle_bit_field_own pc bf)

  -- A server that is ready to send piece `index`: it has a connection `conn` on which the next
  -- write does not fail, and a cache that serves the piece.
  pub record Serving (pc : PeerConnection) (index : ℕ) : Type 0 where
    pub cache : PieceCache
    pub conn : Conn
    pub has_cache : pc.piece_cache ≡ some cache
    pub has_conn : pc.conn ≡ some conn
    pub writes : conn.faults (length conn.sent) ≡ false
    pub serves : Serves place disk cache index (get_piece place fuel disk cache index)

  -- The server when the message is out.
  unfoldable pub replied :
      (pc : PeerConnection) (index : ℕ) → Serving pc index → Bytes → PeerConnection
  replied pc index s msg = record pc {
    piece_cache = some (s.serves.after);
    conn = some (record (s.conn) { sent = s.conn.sent ++ (msg ∷ []) });
  }

  -- The part of the piece, as the files hold it, that a request is about.
  unfoldable pub block_of : (cache : PieceCache) (index begin len : ℕ) → Bytes
  block_of cache index begin len = take len (drop begin (expected place disk cache.info index))

  get_piece_block-Serves :
      (cache : PieceCache) (index begin len : ℕ)
      → (s : Serves place disk cache index (get_piece place fuel disk cache index))
      → begin + len ≤ length (expected place disk cache.info index)
      → get_piece_block place fuel disk cache index begin len
        ≡ ok (block_of cache index begin len, s.after)
  unfolding get_piece_block block_of
  get_piece_block-Serves cache index begin len s h =
      let inside = le→leb _ _ h in rw (s.answers, inside)

  send-out :
      (pc : PeerConnection) (c : Conn) (msg : Bytes)
      → pc.conn ≡ some c
      → c.faults (length c.sent) ≡ false
      → send pc msg
        ≡ ok (record pc { conn = some (record c { sent = c.sent ++ (msg ∷ []) }) }, none)
  unfolding send
  send-out pc c msg h w = rw (h, w)

  send_piece-Serving :
      (pc : PeerConnection) (index begin len : ℕ) (s : Serving pc index)
      → begin + len ≤ length (expected place disk (s.cache).info index)
      → send_piece place fuel disk pc index begin len
        ≡ ok (
          replied pc index s (piece_message index begin (block_of (s.cache) index begin len)),
          none,
        )
  unfolding send_piece replied
  send_piece-Serving pc index begin len s h =
      rw (s.has_cache, get_piece_block-Serves (s.cache) index begin len (s.serves) h)
        (send-out (record pc { piece_cache = some (s.serves.after) }) (s.conn) _ (s.has_conn)
          (s.writes))

  handle_request_read :
      (pc : PeerConnection) (payload : Bytes) (index begin len : ℕ)
      → uint32 payload ≡ ok index
      → number_at payload 4 ≡ ok begin
      → number_at payload 8 ≡ ok len
      → handle_request place fuel disk pc payload
        ≡ drop_error (send_piece place fuel disk pc index begin len)
  unfolding handle_request
  handle_request_read pc payload index begin len hi hb hl = rw (hi, hb, hl)

  handle_request-Serving :
      (pc : PeerConnection) (index begin len : ℕ) (s : Serving pc index)
      → index < 2 ^ 32
      → begin < 2 ^ 32
      → len < 2 ^ 32
      → begin + len ≤ length (expected place disk (s.cache).info index)
      → handle_request place fuel disk pc (put_uint32 index ++ (put_uint32 begin ++ put_uint32 len))
        ≡ ok (replied pc index s (piece_message index begin (block_of (s.cache) index begin len)))
  handle_request-Serving pc index begin len s hi hb hl h =
      handle_request_read pc (put_uint32 index ++ (put_uint32 begin ++ put_uint32 len)) index begin
        len (uint32-put index (put_uint32 begin ++ put_uint32 len) hi)
        (second_number index begin (put_uint32 len) hb) (third_number index begin len hl)
      ∙ ap drop_error (send_piece-Serving pc index begin len s h)

  handle_payload_request :
      (pc : PeerConnection) (payload : Bytes)
      → handle_payload place fuel disk pc 6 payload
        ≡ done (handle_request place fuel disk pc payload)
  unfolding handle_payload
  handle_payload_request pc payload = refl

  handle_payload_piece :
      (pc : PeerConnection) (payload : Bytes)
      → handle_payload place fuel disk pc 7 payload ≡ done (handle_piece pc payload)
  unfolding handle_payload
  handle_payload_piece pc payload = refl

  handle_message-request_message :
      (pc : PeerConnection) (index begin len : ℕ) (s : Serving pc index)
      → index < 2 ^ 32
      → begin < 2 ^ 32
      → len < 2 ^ 32
      → begin + len ≤ length (expected place disk (s.cache).info index)
      → handle_message place fuel disk pc (request_message index begin len)
        ≡ ok (
          replied pc index s (piece_message index begin (block_of (s.cache) index begin len)),
          none,
        )
  handle_message-request_message pc index begin len s hi hb hl h =
      let payload = put_uint32 index ++ (put_uint32 begin ++ put_uint32 len) in
      ap (handle_message place fuel disk pc) (request_message_small index begin len hi hb hl)
      ∙ handle_message_framed pc 13 6 payload
          (omega (arith, length_two index begin (put_uint32 len), length-put_uint32 len))
          (omega arith)
      ∙ handle_payload_request pc payload
      ∙ ap done (handle_request-Serving pc index begin len s hi hb hl h)

  handle_message-piece_message :
      (pc : PeerConnection) (index begin : ℕ) (block : Bytes)
      → index < 2 ^ 32
      → begin < 2 ^ 32
      → Awaits pc begin block
      → handle_message place fuel disk pc (piece_message index begin block)
        ≡ ok (stored pc begin block, none)
  handle_message-piece_message pc index begin block hi hb a =
      let payload = put_uint32 index ++ (put_uint32 begin ++ block) in
      ap (handle_message place fuel disk pc) (piece_message_small index begin block hi hb (a.small))
      ∙ handle_message_framed pc (9 + length block) 7 payload
          (omega (arith, length_two index begin block)) (omega (arith, a.small))
      ∙ handle_payload_piece pc payload
      ∙ ap done (handle_piece-Awaits pc index begin block hi hb a)

  -- A request for a block within a piece, of numbers below 2^32, handled by a client that serves
  -- the piece, is answered by one message, with no error; handled by a client that waits for the
  -- block (its place lies within the piece that is downloaded in blocks of 16384 bytes, and the
  -- message fits its length field), this message puts the bytes that the files of the first hold
  -- into the place of the block, marks the block as present and counts it as no longer
  -- outstanding.
  pub block_exchange :
      (server client : PeerConnection) (index begin len : ℕ) (s : Serving server index)
      → index < 2 ^ 32
      → begin < 2 ^ 32
      → len < 2 ^ 32
      → begin + len ≤ length (expected place disk (s.cache).info index)
      → Awaits client begin (block_of (s.cache) index begin len)
      → (reply : Bytes) × (handle_message place fuel disk server (request_message index begin len)
          ≡ ok (replied server index s reply, none))
        × (handle_message place fuel disk client reply
            ≡ ok (stored client begin (block_of (s.cache) index begin len), none))
  block_exchange server client index begin len s hi hb hl h a = (
    piece_message index begin (block_of (s.cache) index begin len),
    handle_message-request_message server index begin len s hi hb hl h,
    handle_message-piece_message client index begin (block_of (s.cache) index begin len) hi hb a,
  )
