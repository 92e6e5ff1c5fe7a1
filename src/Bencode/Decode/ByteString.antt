-- ===== src/Bencode/Decode/ByteString.antt =====
-- `decodeByteString` and `decodeInteger` on inputs that begin with the right characters.
use torrent_client.Common.{
  ℕ, suc, ◌+◌, ◌-◌, ◌<◌, ◌≡◌, refl, ◌≢◌, none, some, [], ◌∷◌, ◌++◌, append_assoc, arith, leb,
  if◌then◌else◌, Bytes, length, take, drop, length-append, All, length-take, take_front, drop_front,
}
use torrent_client.Common.Outcome.{ok, panic}
use torrent_client.Common.Int.{ℤ, pos, negsuc, IsInt}
use torrent_client.Bencode.Decimal.{atoi, itoa}
use torrent_client.Bencode.Decimal.RoundTrip.{IsDigit, format-IsDigit, atoi-itoa}
use torrent_client.Bencode.Decode.{
  bad_number, err, slice_from, find_first_byte, find_end, decode_integer, decode_byte_string,
}

abbrev pub Lacks : ℕ → Bytes → Type 0
Lacks b = All (λ c. c ≢ b)

pub digits-Lacks : (b : ℕ) (s : Bytes) → b'9' < b → All IsDigit s → Lacks b s
digits-Lacks b [] h d = tt
digits-Lacks b (c ∷ s) h (d, ds) = ((λ e. absurd (omega arith)), digits-Lacks b s h ds)

pub find_first_byte-append :
    (i b : ℕ) (s rest : Bytes)
    → Lacks b s
    → find_first_byte i (s ++ (b ∷ rest)) b ≡ some (i + length s)
unfolding find_first_byte
find_first_byte-append i b [] rest h = ground arith
find_first_byte-append i b (c ∷ s) rest (ne, h) =
    ground (arith, find_first_byte-append (i + 1) b s rest h)

find_end-append :
    (i : ℕ) (s rest : Bytes) → Lacks b'e' s → find_end i (s ++ (b'e' ∷ rest)) ≡ i + length s
unfolding find_end
find_end-append i [] rest h = ground arith
find_end-append i (c ∷ s) rest (ne, h) = ground (arith, find_end-append (i + 1) s rest h)

drop_past : (b : ℕ) (s rest : Bytes) → drop (length s + 1) (s ++ (b ∷ rest)) ≡ rest
drop_past b [] rest = refl
drop_past b (x ∷ s) rest =
    let e : suc (length s) + 1 ≡ suc (length s + 1) = omega arith in rw e (drop_past b s rest)

pub slice_from-append : (s x : Bytes) → slice_from (s ++ x) (length s) ≡ ok x
slice_from-append s x = rw (drop_front s x) (ground (arith, length-append s x))

module _ (spare : Bytes) where
  -- What happens behind a length that is read: the bytes are taken, from the spare bytes too,
  -- or the slice expression panics.
  pub decode_byte_string_lem :
      (ds t : Bytes) (l : ℕ)
      → Lacks b':' ds
      → atoi ds ≡ some (pos l)
      → decode_byte_string spare (ds ++ (b':' ∷ t)) ≡ (
          if leb l (length t + length spare)
          then ok (take l (t ++ spare), length ds + 1 + l)
          else panic)
  unfolding decode_byte_string
  decode_byte_string_lem ds t l h e =
      let z : 0 + length ds ≡ length ds = omega arith in
      rw (find_first_byte-append 0 b':' ds t h) (
        rw (z, take_front ds (b':' ∷ t), e, append_assoc, drop_past b':' ds (t ++ spare))
          (ground (
            arith,
            length-append ds (b':' ∷ t),
            length-append t spare,
            length-take l (t ++ spare),
          )))

  -- A length that is no number of the range of `int` is an error.
  pub decode_byte_string-bad_number :
      (ds t : Bytes)
      → Lacks b':' ds
      → atoi ds ≡ none
      → decode_byte_string spare (ds ++ (b':' ∷ t)) ≡ err bad_number
  unfolding decode_byte_string
  decode_byte_string-bad_number ds t h e =
      let z : 0 + length ds ≡ length ds = omega arith in
      rw (find_first_byte-append 0 b':' ds t h) (rw (z, take_front ds (b':' ∷ t), e))

itoa-Lacks : (z : ℤ) → Lacks b'e' (itoa z)
unfolding itoa
itoa-Lacks (pos n) = digits-Lacks b'e' _ (omega arith) (format-IsDigit n)
itoa-Lacks (negsuc n) =
    ((λ p. absurd (omega arith)), digits-Lacks b'e' _ (omega arith) (format-IsDigit (suc n)))

pub decode_integer-encode :
    (z : ℤ) (rest : Bytes)
    → IsInt z
    → decode_integer (b'i' ∷ (itoa z ++ (b'e' ∷ rest))) ≡ ok (z, length (itoa z) + 2)
unfolding decode_integer
decode_integer-encode z rest h =
    let n : 1 + length (itoa z) - 1 ≡ length (itoa z) = omega arith in
    rw (find_end-append 1 (itoa z) rest (itoa-Lacks z))
      (rw (n, take_front (itoa z) (b'e' ∷ rest), atoi-itoa z h) (ground arith))
