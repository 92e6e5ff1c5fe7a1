-- ===== src/Bencode/Decimal.antt =====
-- `strconv.Itoa` and `strconv.Atoi`, as pkg/bencode uses them, over the 64-bit `int`.
pub mod RoundTrip
use torrent_client.Common.{
  ℕ, zero, suc, ◌+◌, ◌-◌, ◌*◌, ◌/◌, ◌%◌, Bool, true, false, ◌&&◌, [], ◌∷◌, ◌++◌, Option, none, some,
  ◌≡◌, refl, ltb, leb, ◌==◌, if◌then◌else◌, Bytes, codes,
}
use torrent_client.Common.Int.{ℤ, pos, negsuc, max_int}

-- The digits of `n`; the fuel is more than their number.
unfoldable pub digits : ℕ → ℕ → Bytes
digits zero n = []
digits (suc f) n =
    let front = digits f (n / 10) in
    if ltb n 10 then (b'0' + n) ∷ [] else front ++ ((b'0' + n % 10) ∷ [])

unfoldable pub format : ℕ → Bytes
unfolding digits
format n = digits (suc n) n

unfoldable pub itoa : ℤ → Bytes
unfolding format
itoa (pos n) = format n
itoa (negsuc n) = b'-' ∷ format (suc n)

abbrev pub is_digit : ℕ → Bool
is_digit c = leb b'0' c && leb c b'9'

unfoldable pub scan : ℕ → Bytes → Option ℕ
scan acc [] = some acc
scan acc (c ∷ s) = if is_digit c then scan (acc * 10 + (c - b'0')) s else none

-- one digit or more
unfoldable pub parse_digits : Bytes → Option ℕ
unfolding scan
parse_digits [] = none
parse_digits (c ∷ s) = scan 0 (c ∷ s)

-- the range check of `ParseInt`: `bound` is the largest magnitude
unfoldable pub in_range : ℕ → Option ℕ → Option ℕ
in_range bound none = none
in_range bound (some n) = if leb n bound then some n else none

unfoldable pub negate : Option ℕ → Option ℤ
negate none = none
negate (some zero) = some (pos 0)
negate (some (suc n)) = some (negsuc n)

unfoldable pub positive : Option ℕ → Option ℤ
positive none = none
positive (some n) = some (pos n)

unfoldable pub atoi : Bytes → Option ℤ
unfolding parse_digits in_range negate positive
atoi [] = none
atoi (c ∷ s) =
    if c == b'-'
    then negate (in_range (max_int + 1) (parse_digits s))
    else if c == b'+'
    then positive (in_range max_int (parse_digits s))
    else positive (in_range max_int (parse_digits (c ∷ s)))

atoi_runs :
    (atoi (codes "-120") ≡ some (negsuc 119))
    × (atoi (codes "9223372036854775808") ≡ none)
    × (atoi (codes "-9223372036854775808") ≡ some (negsuc max_int))
    × (atoi (codes "+7") ≡ some (pos 7))
    × (atoi (codes "1x") ≡ none)
unfolding atoi
atoi_runs = (refl, refl, refl, refl, refl)

itoa_runs : (itoa (pos max_int) ≡ codes "9223372036854775807") × (itoa (negsuc 9) ≡ codes "-10")
unfolding itoa
itoa_runs = (refl, refl)
