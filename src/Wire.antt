-- ===== src/Wire.antt =====
-- `binary.BigEndian` of Go's library as the program uses it, and messages that are filled in place
-- (`make`, `PutUint32(msg[o:], x)`, `copy(msg[o:], b)`). Conversions such as `uint32(x)` wrap.
pub mod Laws
use torrent_client.Common.{
  ℕ, ◌+◌, ◌*◌, ◌/◌, ◌%◌, ◌^◌, [], ◌∷◌, ◌++◌, Bytes, length, take, drop, replicate,
}
use torrent_client.Common.Outcome.{Outcome, ok, panic}

-- the byte of `x` above `2 ^ k`
abbrev pub octet : ℕ → ℕ → ℕ
octet x k = x / 2 ^ k % 256

unfoldable pub put_uint16 : ℕ → Bytes
put_uint16 x = octet x 8 ∷ octet x 0 ∷ []

unfoldable pub put_uint32 : ℕ → Bytes
put_uint32 x = octet x 24 ∷ octet x 16 ∷ octet x 8 ∷ octet x 0 ∷ []

unfoldable pub put_uint64 : ℕ → Bytes
unfolding put_uint32
put_uint64 x = put_uint32 (x / 2 ^ 32) ++ put_uint32 x

-- `Uint32(b)` panics for fewer than four bytes, and so the others.
unfoldable pub uint16 : Bytes → Outcome ℕ
uint16 (a ∷ b ∷ rest) = ok (a * 2 ^ 8 + b)
uint16 _ = panic

unfoldable pub uint32 : Bytes → Outcome ℕ
uint32 (a ∷ b ∷ c ∷ d ∷ rest) = ok (a * 2 ^ 24 + b * 2 ^ 16 + c * 2 ^ 8 + d)
uint32 _ = panic

unfoldable pub uint64 : Bytes → Outcome ℕ
uint64 (a ∷ b ∷ c ∷ d ∷ e ∷ f ∷ g ∷ h ∷ rest) =
    ok (
      (a * 2 ^ 24 + b * 2 ^ 16 + c * 2 ^ 8 + d) * 2 ^ 32
      + (e * 2 ^ 24 + f * 2 ^ 16 + g * 2 ^ 8 + h))
uint64 _ = panic

-- `make([]byte, n)`
abbrev pub make : ℕ → Bytes
make n = replicate n 0

-- `b` written over `msg` from `o` on; it fits wherever the program does this.
abbrev pub put_at : Bytes → ℕ → Bytes → Bytes
put_at msg o b = take o msg ++ (b ++ drop (o + length b) msg)
