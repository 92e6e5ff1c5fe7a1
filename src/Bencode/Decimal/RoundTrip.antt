-- ===== src/Bencode/Decimal/RoundTrip.antt =====
-- Printing an `int` and reading it back, and the bytes that a print holds.
use torrent_client.Common.{
  ℕ, zero, suc, ◌+◌, ◌-◌, ◌*◌, ◌/◌, ◌%◌, ◌≤◌, ◌<◌, ◌≡◌, refl, ◌∙◌, inl, inr, none, some, [], ◌∷◌,
  ◌++◌, arith, ltb, Bool-cases, Bytes, All, All-append,
}
use torrent_client.Common.Int.{ℤ, pos, negsuc, max_int, IsInt}
use torrent_client.Bencode.Decimal.{digits, format, itoa, scan, parse_digits, atoi}

abbrev pub IsDigit : ℕ → Type 0
IsDigit c = (b'0' ≤ c) × (c ≤ b'9')

-- one more digit behind a number that is read already
scan-concat :
    (s : Bytes) (acc n d : ℕ)
    → scan acc s ≡ some n
    → d < 10
    → scan acc (s ++ ((b'0' + d) ∷ [])) ≡ some (n * 10 + d)
unfolding scan
scan-concat [] acc n d h lt = ground arith
scan-concat (c ∷ s) acc n d h lt = ground (arith, scan-concat s (acc * 10 + (c - b'0')) n d)

scan-digits : (f n : ℕ) → n < f → scan 0 (digits f n) ≡ some n
unfolding digits
scan-digits zero n h = absurd (omega arith)
scan-digits (suc f) n h = elim (Bool-cases (ltb n 10)) [
  | inl small ↦ rw small (unfold scan in ground arith)
  | inr big ↦ rw big (
      scan-concat (digits f (n / 10)) 0 (n / 10) (n % 10) (scan-digits f (n / 10) (ground arith))
        (omega arith)
      ∙ ground arith)
]

digits-IsDigit : (f n : ℕ) → All IsDigit (digits f n)
unfolding digits
digits-IsDigit zero n = tt
digits-IsDigit (suc f) n = elim (Bool-cases (ltb n 10)) [
  | inl small ↦ rw small (ground arith)
  | inr big ↦
      rw big (All-append IsDigit (digits f (n / 10)) _ (digits-IsDigit f (n / 10)) (omega arith))
]

pub format-IsDigit : (n : ℕ) → All IsDigit (format n)
unfolding format
format-IsDigit n = digits-IsDigit (suc n) n

-- a print begins with a digit
pub format_cons : (n : ℕ) → (c : ℕ) × (s : Bytes) × (format n ≡ c ∷ s)
unfolding format digits
format_cons n = elim (Bool-cases (ltb n 10)) [
  | inl small ↦ (b'0' + n, [], rw small)
  | inr big ↦ let (c, s, e) = head_of (digits n (n / 10)) (b'0' + n % 10) in (c, s, rw big e)
]
  where
    head_of : (xs : Bytes) (d : ℕ) → (c : ℕ) × (s : Bytes) × (xs ++ (d ∷ []) ≡ c ∷ s)
    head_of [] d = (d, [], refl)
    head_of (x ∷ xs) d = (x, xs ++ (d ∷ []), refl)

parse_digits-scan :
    (s : Bytes) (n c : ℕ) (t : Bytes) → s ≡ c ∷ t → scan 0 s ≡ some n → parse_digits s ≡ some n
unfolding parse_digits
parse_digits-scan s n c t e h = rw e (rw e at h)

pub parse_digits-format : (n : ℕ) → parse_digits (format n) ≡ some n
parse_digits-format n =
    let (c, s, e) = format_cons n in
    parse_digits-scan (format n) n c s e (unfold format in scan-digits (suc n) n (omega arith))

-- a print that begins with a digit is read with no sign
pub atoi-format : (n : ℕ) → n ≤ max_int → atoi (format n) ≡ some (pos n)
atoi-format n h =
    let (c, s, e) = format_cons n in go c s e (rw e at (format-IsDigit n)) (parse_digits-format n)
  where
    go :
        (c : ℕ) (s : Bytes)
        → format n ≡ c ∷ s
        → All IsDigit (c ∷ s)
        → parse_digits (format n) ≡ some n
        → atoi (format n) ≡ some (pos n)
    go c s e d p = rw e (unfold atoi in ground (arith, rw e at p))

-- a print of a number that is no `int`
pub atoi-format_large : (n : ℕ) → max_int < n → atoi (format n) ≡ none
atoi-format_large n h =
    let (c, s, e) = format_cons n in go c s e (rw e at (format-IsDigit n)) (parse_digits-format n)
  where
    go :
        (c : ℕ) (s : Bytes)
        → format n ≡ c ∷ s
        → All IsDigit (c ∷ s)
        → parse_digits (format n) ≡ some n
        → atoi (format n) ≡ none
    go c s e d p = rw e (unfold atoi in ground (arith, rw e at p))

-- Every `int` is read back from its decimal print.
pub atoi-itoa : (z : ℤ) → IsInt z → atoi (itoa z) ≡ some z
unfolding itoa
atoi-itoa (pos n) h = atoi-format n h
atoi-itoa (negsuc n) h = unfold atoi in ground (arith, parse_digits-format (suc n))
