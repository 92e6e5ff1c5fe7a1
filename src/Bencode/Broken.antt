-- ===== src/Bencode/Broken.antt =====
-- What the decoder does with inputs that are cut short, and with empty lists and dictionaries.
use torrent_client.Common.{
  ℕ, suc, ◌+◌, ◌-◌, ◌≤◌, ◌<◌, ◌≡◌, refl, ap, ◌∙◌, inl, inr, none, some, [], ◌∷◌, ◌++◌, append-nil,
  arith, leb, if◌then◌else◌, leb→le, Bool-cases, Option-cases, Bytes, length, take, All,
}
use torrent_client.Common.Int.{max_int}
use torrent_client.Common.Outcome.{
  Outcome, bad_start, no_delimiter, bad_number, ok, err, panic, Error, ◌>>=◌,
}
use torrent_client.Bencode.Decimal.{atoi, format}
use torrent_client.Bencode.Decimal.RoundTrip.{
  atoi-format_large, format_cons, format-IsDigit, IsDigit, atoi-format,
}
use torrent_client.Bencode.Encode.{sort_keys, join_entries, encode, or_nil}
use torrent_client.Bencode.Decode.{
  find_first_byte, decode_byte_string, decode_fuel, decode_switch, decode_with_count, decode_list,
  decode_dict, list_loop, dict_loop,
}
use torrent_client.Bencode.Decode.ByteString.{
  decode_byte_string-bad_number, slice_from-append, decode_byte_string_lem, digits-Lacks,
}
use torrent_client.Bencode.Normal.{Encodable}
use torrent_client.Bencode.RoundTrip.{encode-Reads}
use torrent_client.Bencode.Value.{Value, Items, Fields}

with_count-fuel :
    (spare s : Bytes) → decode_with_count spare s ≡ decode_fuel spare (suc (length s)) s
unfolding decode_with_count
with_count-fuel spare s = refl

find_first_byte-le : (i : ℕ) (s : Bytes) (b j : ℕ) → find_first_byte i s b ≡ some j → i ≤ j
unfolding find_first_byte
find_first_byte-le i [] b j h = cc
find_first_byte-le i (c ∷ s) b j h = ground (arith, find_first_byte-le (i + 1) s b j)

atoi-e : (s : Bytes) → atoi (b'e' ∷ s) ≡ none
unfolding atoi
atoi-e s = refl

module _ (spare : Bytes) where
  switch-digit :
      (f c : ℕ) (t : Bytes)
      → IsDigit c
      → decode_fuel spare (suc f) (c ∷ t)
        ≡ (decode_byte_string spare (c ∷ t) >>= λ (b, n). ok (Value.bytes b, n))
  unfolding decode_fuel decode_switch
  switch-digit f c t d = ground arith

  -- The front of a byte string is read where its length is.
  with_count-format :
      (l : ℕ) (t : Bytes) (r : Outcome (Bytes × ℕ))
      → decode_byte_string spare (format l ++ (b':' ∷ t)) ≡ r
      → decode_with_count spare (format l ++ (b':' ∷ t)) ≡ (r >>= λ (b, n). ok (Value.bytes b, n))
  with_count-format l t r read =
      let (c, s, e) = format_cons l in
      let d : All IsDigit (c ∷ s) = rw e at (format-IsDigit l) in
      rw (with_count-fuel spare (format l ++ (b':' ∷ t)), e)
        (switch-digit (length ((c ∷ s) ++ (b':' ∷ t))) c (s ++ (b':' ∷ t)) d.0
          ∙ ap (λ x. x >>= λ (b, n). ok (Value.bytes b, n)) (rw e at read))

  -- A byte string whose length prefix `l` is larger than what follows it: where `l` is an `int`, at
  -- most 2^63-1, it is no error, but the missing bytes are taken from the spare capacity, and where
  -- that is too short the decoder panics. A larger `l` is the error of `Atoi`.
  pub decode_with_count_truncated :
      (l : ℕ) (t : Bytes)
      → length t < l
      → decode_with_count spare (format l ++ (b':' ∷ t)) ≡ (
          if leb l max_int
          then (if leb l (length t + length spare)
              then ok (Value.bytes (take l (t ++ spare)), length (format l) + 1 + l)
              else panic)
          else err bad_number)
  decode_with_count_truncated l t short =
      let lacks = digits-Lacks b':' _ (omega arith) (format-IsDigit l) in
      elim (Bool-cases (leb l max_int)) [
        | inl small ↦
            let h : l ≤ max_int = leb→le _ _ small in
            rw small (
              with_count-format l t _
                (decode_byte_string_lem spare (format l) t l lacks (atoi-format l h))
              ∙ ground arith)
        | inr large ↦ rw large (
            with_count-format l t _ (
              decode_byte_string-bad_number spare (format l) t lacks
                (atoi-format_large l (ground arith))))
      ]

  -- A list that ends behind an item, with no end character, makes the decoder panic.
  pub decode_with_count_unclosed :
      {v : Value} → Encodable v → decode_with_count spare (b'l' ∷ or_nil (encode v)) ≡ panic
  decode_with_count_unclosed {v} e =
      let b = or_nil (encode v) in
      let r = encode-Reads spare e in
      rw (with_count-fuel spare (b'l' ∷ b)) (
        unfold decode_fuel decode_switch decode_list list_loop in
        rw (rw append-nil at (r.reads (suc (length b)) [] (omega arith)))
          (rw (rw append-nil at (slice_from-append b []))))

  -- an end character is no key
  key_at_end : (rest : Bytes) → (e : Error) × (decode_byte_string spare (b'e' ∷ rest) ≡ err e)
  unfolding decode_byte_string
  key_at_end rest = elim (Option-cases (find_first_byte 1 rest b':')) [
    | inl missing ↦ (no_delimiter, rw missing)
    | inr (j, found) ↦ (
      bad_number,
      rw found (
          let e : j ≡ suc (j - 1) = omega (arith, find_first_byte-le 1 rest b':' j found) in
          rw e (rw atoi-e)),
    )
  ]

  -- Empty lists and empty dictionaries, which `Encode` writes as `le` and `de`, are refused
  -- whatever follows them.
  pub decode_with_count_empty :
      (rest : Bytes)
      → (e₁ : Error) × (e₂ : Error) × (decode_with_count spare
            (or_nil (encode (Value.list Items.nil)) ++ rest)
          ≡ err e₁)
        × (decode_with_count spare (or_nil (encode (Value.dict Fields.end)) ++ rest) ≡ err e₂)
  unfolding decode_with_count encode join_entries sort_keys
  decode_with_count_empty rest =
      let (x, p) = key_at_end rest in
      (
        bad_start,
        x,
        refl,
        with_count-fuel spare (b'd' ∷ b'e' ∷ rest)
            ∙ unfold decode_fuel decode_switch decode_dict dict_loop in rw p,
      )
