-- ===== src/Peer/Buffered/Agrees.antt =====
-- The loop over a buffer of messages (pkg/torrent/peerprotocol.go), next to `HandleMessage`.
use torrent_client.Common.{
  ℕ, zero, suc, ◌+◌, ◌-◌, ◌^◌, ◌<◌, ◌≡◌, refl, sym, ap, ◌∙◌, true, ◌∷◌, ◌++◌, append_assoc, arith,
  ltb, leb, Bytes, length, length-append, take_front, drop_front,
}
use torrent_client.Common.Outcome.{Outcome, ok, err, no_fuel, panic, ◌>>=◌}
use torrent_client.Peer.{PeerConnection}
use torrent_client.Peer.Buffered.{payload_of, handle_known, parse_round, parse_messages}
use torrent_client.Peer.Exchange.{handle_message_framed}
use torrent_client.Peer.Handler.{
  done, drop_error, handle_payload, handle_message, handle_interested, handle_have, handle_request,
  handle_piece, handle_cancel,
}
use torrent_client.Storage.{Disk}
use torrent_client.Torrent.{TorrentFile}
use torrent_client.Wire.{put_uint32, uint32}
use torrent_client.Wire.Laws.{uint32-put}

bind_assoc :
    {A B C : Type 0} (m : Outcome A) (f : A → Outcome B) (g : B → Outcome C)
    → (m >>= f >>= g) ≡ (m >>= λ a. f a >>= g)
bind_assoc (ok a) f g = refl
bind_assoc (err e) f g = refl
bind_assoc panic f g = refl
bind_assoc no_fuel f g = refl

-- a message as it stands in a buffer
abbrev pub message : (id : ℕ) → Bytes → Bytes
message id payload = put_uint32 (1 + length payload) ++ (id ∷ payload)

module _ (place : TorrentFile → ℕ) (fuel : ℕ) (disk : Disk) where
  done_drop : (m : Outcome PeerConnection) → drop_error (done m) ≡ m
  done_drop (ok pc) = refl
  done_drop (err e) = refl
  done_drop panic = refl
  done_drop no_fuel = refl

  payload_whole :
      (id : ℕ) (payload rest : Bytes)
      → ltb 3 id ≡ true
      → payload_of id (suc (length payload)) (payload ++ rest) ≡ ok payload
  unfolding payload_of
  payload_whole id payload rest h =
      let less : suc (length payload) - 1 ≡ length payload = omega arith in
      let e = length-append payload rest in
      let inside : leb (length payload) (length (payload ++ rest)) ≡ true = ground arith in
      rw (h, less, inside, take_front payload rest)

  -- The payload that the buffer gives is handled as `HandleMessage` handles its own.
  known :
      (pc : PeerConnection) (id : ℕ) (payload rest : Bytes)
      → id < 9
      → (payload_of id (suc (length payload)) (payload ++ rest) >>= λ p.
          handle_known place fuel disk pc id p)
        ≡ drop_error (handle_payload place fuel disk pc id payload)
  unfolding payload_of handle_known handle_payload
  known pc zero payload rest h = refl
  known pc (suc zero) payload rest h = refl
  known pc (suc (suc zero)) payload rest h = sym (done_drop (handle_interested pc))
  known pc (suc (suc (suc zero))) payload rest h = refl
  known pc (suc (suc (suc (suc zero)))) payload rest h =
      rw (payload_whole 4 payload rest refl) (sym (done_drop (handle_have pc payload)))
  known pc (suc (suc (suc (suc (suc zero))))) payload rest h =
      rw (payload_whole 5 payload rest refl)
  known pc (suc (suc (suc (suc (suc (suc zero)))))) payload rest h =
      rw (payload_whole 6 payload rest refl)
        (sym (done_drop (handle_request place fuel disk pc payload)))
  known pc (suc (suc (suc (suc (suc (suc (suc zero))))))) payload rest h =
      rw (payload_whole 7 payload rest refl) (sym (done_drop (handle_piece pc payload)))
  known pc (suc (suc (suc (suc (suc (suc (suc (suc zero)))))))) payload rest h =
      rw (payload_whole 8 payload rest refl) (sym (done_drop (handle_cancel pc payload)))
  known pc (suc (suc (suc (suc (suc (suc (suc (suc (suc id))))))))) payload rest h =
      absurd (omega arith)

  parse_round_known :
      (continue : PeerConnection → Bytes → Outcome PeerConnection) (pc : PeerConnection) (id : ℕ)
      (payload rest : Bytes)
      → id < 9
      → parse_round place fuel disk continue pc (suc (length payload)) (id ∷ (payload ++ rest))
        ≡ (drop_error (handle_payload place fuel disk pc id payload) >>= λ pc'. continue pc' rest)
  unfolding parse_round
  parse_round_known continue pc id payload rest h =
      let handled = λ (p : Bytes). handle_known place fuel disk pc id p in
      rw (drop_front payload rest) (
        sym (
          bind_assoc (payload_of id (suc (length payload)) (payload ++ rest)) handled
            (λ pc'. continue pc' rest))
        ∙ ap (λ m. m >>= λ pc'. continue pc' rest) (known pc id payload rest h))

  parse_messages_header :
      (n : ℕ) (pc : PeerConnection) (len : ℕ) (body : Bytes)
      → parse_messages place fuel disk (suc n) pc (put_uint32 len ++ body) ≡ (
          uint32 (put_uint32 len ++ body) >>= λ k.
          parse_round place fuel disk
            (λ pc' rest. parse_messages place fuel disk n pc' rest)
            pc
            k
            body)
  unfolding parse_messages put_uint32
  parse_messages_header n pc len body = refl

  -- A round of `parseMessages` handles the message at the front of its buffer, one with an id of 8
  -- at most and a length below 2^32, as `HandleMessage` handles the message alone, less the error
  -- that it returns, and goes on with what follows.
  pub parse_messages-handle_message :
      (n : ℕ) (pc : PeerConnection) (id : ℕ) (payload rest : Bytes)
      → id < 9
      → 1 + length payload < 2 ^ 32
      → parse_messages place fuel disk (suc n) pc (message id payload ++ rest) ≡ (
          drop_error (handle_message place fuel disk pc (message id payload)) >>= λ pc'.
          parse_messages place fuel disk n pc' rest)
  parse_messages-handle_message n pc id payload rest h small =
      let continue = λ (pc' : PeerConnection) (b : Bytes). parse_messages place fuel disk n pc' b in
      let len = 1 + length payload in
      let body = id ∷ (payload ++ rest) in
      let more : len ≡ suc (length payload) = omega arith in
      ap (parse_messages place fuel disk (suc n) pc)
        (append_assoc (put_uint32 len) (id ∷ payload) rest)
      ∙ parse_messages_header n pc len body
      ∙ ap (λ m. m >>= λ k. parse_round place fuel disk continue pc k body)
          (uint32-put len body small)
      ∙ ap (λ k. parse_round place fuel disk continue pc k body) more
      ∙ parse_round_known continue pc id payload rest h
      ∙ ap (λ m. drop_error m >>= λ pc'. continue pc' rest)
          (sym (handle_message_framed place fuel disk pc len id payload refl small))
