-- ===== src/Extension/Recognise.antt =====
-- pkg/torrent/extension_messages.go: `CanDeserialize`, and the messages that it takes.
use torrent_client.Common.{
  ℕ, suc, ◌+◌, ◌%◌, ◌^◌, ◌<◌, ◌≡◌, ap, ◌∙◌, Bool, true, false, ◌∷◌, arith, leb, ◌==◌, Bytes, length,
  get_or,
}
use torrent_client.Common.Outcome.{Outcome, ok, check, ◌>>=◌, ◌>>◌}
use torrent_client.Extension.{frame}
use torrent_client.Wire.{put_uint32, uint32}
use torrent_client.Wire.Laws.{uint32-put}

-- the tests, for the length that the message begins with
unfoldable pub is_handshake : Bytes → (len : ℕ) → Outcome Bool
is_handshake msg len = elim (length msg == len + 4) [
  | false ↦ ok false
  | true ↦ check (leb 5 (length msg)) >> elim (get_or msg 4 0 == 20) [
    | false ↦ ok false
    | true ↦ check (leb 6 (length msg)) >> ok (get_or msg 5 0 == 0)
  ]
]

-- `CanDeserialize`: a message whose length is right, with 20 and 0 in front; one without a byte, or
-- with one alone, behind the length panics.
unfoldable pub can_deserialize : Bytes → Outcome Bool
unfolding uint32 is_handshake
can_deserialize msg = uint32 msg >>= λ len. is_handshake msg len

is_handshake-frame :
    (id : ℕ) (body : Bytes) → is_handshake (frame id body) (length body + 2) ≡ ok (id == 0)
unfolding is_handshake frame put_uint32
is_handshake-frame id body =
    let l = suc (suc (suc (suc (suc (suc (length body)))))) in
    let fits : (l == length body + 2 + 4) ≡ true = ground arith in
    let five : leb 5 l ≡ true = ground arith in
    let six : leb 6 l ≡ true = ground arith in rw (is_handshake, fits, five, six)

-- A frame of the extension protocol that fits its length field is taken for a handshake exactly
-- where its id is 0.
pub can_deserialize-frame :
    (id : ℕ) (body : Bytes)
    → length body + 2 < 2 ^ 32
    → can_deserialize (frame id body) ≡ ok (id == 0)
unfolding can_deserialize frame
can_deserialize-frame id body small =
    let n = (length body + 2) % 2 ^ 32 in
    let same : n ≡ length body + 2 = omega arith in
    ap (λ m. m >>= λ len. is_handshake (frame id body) len)
      (uint32-put n (20 ∷ id ∷ body) (omega arith))
    ∙ ap (is_handshake (frame id body)) same
    ∙ is_handshake-frame id body
