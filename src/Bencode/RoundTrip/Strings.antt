-- ===== src/Bencode/RoundTrip/Strings.antt =====
-- Encodings that the decoder reads back, whatever follows them; those of numbers and strings.
use torrent_client.Common.{
  ℕ, zero, suc, ◌≤◌, ◌≡◌, refl, ap, ◌≢◌, [], ◌∷◌, ◌++◌, append_assoc, arith, Bytes, length,
  length-append, All, take_front,
}
use torrent_client.Common.Outcome.{ok}
use torrent_client.Common.Int.{ℤ, IsInt, max_int}
use torrent_client.Bencode.Decimal.{itoa, format}
use torrent_client.Bencode.Decimal.RoundTrip.{format_cons, format-IsDigit, IsDigit, atoi-format}
use torrent_client.Bencode.Encode.{encode_int, encode_string}
use torrent_client.Bencode.Decode.{decode_byte_string, decode_switch, decode_fuel}
use torrent_client.Bencode.Decode.ByteString.{
  decode_byte_string_lem, decode_integer-encode, digits-Lacks,
}
use torrent_client.Bencode.Value.{Value}

module _ (spare : Bytes) where
  -- With fuel for its length the decoder reads `v` from `b` and counts its bytes. The first byte
  -- is not the `e` that ends a list or a dictionary.
  pub record Reads (b : Bytes) (v : Value) : Type 0 where
    pub head : ℕ
    pub tail : Bytes
    pub split : b ≡ head ∷ tail
    pub head_ne : head ≢ b'e'
    pub reads :
        (f : ℕ) (rest : Bytes) → length b ≤ f → decode_fuel spare f (b ++ rest) ≡ ok (v, length b)

  pub decode_byte_string-encode :
      (s rest : Bytes)
      → length s ≤ max_int
      → decode_byte_string spare (encode_string s ++ rest) ≡ ok (s, length (encode_string s))
  unfolding encode_string
  decode_byte_string-encode s rest h = rw (append_assoc) (
      rw
        (decode_byte_string_lem spare (format (length s)) (s ++ rest) (length s)
          (digits-Lacks b':' _ (omega arith) (format-IsDigit (length s)))
          (atoi-format (length s) h))
        (rw (append_assoc, take_front s (rest ++ spare))
          (ground (arith, length-append s rest, length-append (format (length s)) (b':' ∷ s)))))

  pub encode_string_cons :
      (s : Bytes) → (c : ℕ) × (t : Bytes) × (encode_string s ≡ c ∷ t) × IsDigit c
  unfolding encode_string
  encode_string_cons s =
      let (c, t, e) = format_cons (length s) in
      let d : All IsDigit (c ∷ t) = rw e at (format-IsDigit (length s)) in
      (c, t ++ (b':' ∷ s), rw e, d.0)

  -- a digit in front: the switch calls `decodeByteString`
  pub decode_fuel-digit :
      (f c : ℕ) (t b : Bytes) (n : ℕ)
      → IsDigit c
      → decode_byte_string spare (c ∷ t) ≡ ok (b, n)
      → decode_fuel spare (suc f) (c ∷ t) ≡ ok (Value.bytes b, n)
  unfolding decode_fuel decode_switch
  decode_fuel-digit f c t b n d h = ground arith

  decode_fuel-encode_string :
      (s : Bytes) (f : ℕ) (rest : Bytes)
      → length s ≤ max_int
      → length (encode_string s) ≤ f
      → decode_fuel spare f (encode_string s ++ rest) ≡ ok (Value.bytes s, length (encode_string s))
  decode_fuel-encode_string s zero rest h k =
      let (c, t, e, d) = encode_string_cons s in absurd (omega (arith, ap length e))
  decode_fuel-encode_string s (suc f) rest h k =
      let (c, t, e, d) = encode_string_cons s in
      let read = decode_byte_string-encode s rest h in
      rw e (decode_fuel-digit f c (t ++ rest) s (length (c ∷ t)) d (rw e at read))

  pub Reads-string : (s : Bytes) → length s ≤ max_int → Reads (encode_string s) (Value.bytes s)
  Reads-string s h =
      let (c, t, e, d) = encode_string_cons s in
      record {
        head = c;
        tail = t;
        split = e;
        head_ne = λ p. absurd (omega arith);
        reads = λ f rest k. decode_fuel-encode_string s f rest h k;
      }

  decode_fuel-encode_int :
      (z : ℤ) (f : ℕ) (rest : Bytes)
      → IsInt z
      → length (encode_int z) ≤ f
      → decode_fuel spare f (encode_int z ++ rest) ≡ ok (Value.int z, length (encode_int z))
  unfolding encode_int decode_fuel decode_switch
  decode_fuel-encode_int z zero rest h k = absurd (omega arith)
  decode_fuel-encode_int z (suc f) rest h k = ground (
    arith,
    append_assoc (itoa z) (b'e' ∷ []) rest,
    decode_integer-encode z rest h,
    length-append (itoa z) (b'e' ∷ []),
  )

  pub Reads-int : (z : ℤ) → IsInt z → Reads (encode_int z) (Value.int z)
  Reads-int z h = record {
    head = b'i';
    tail = itoa z ++ (b'e' ∷ []);
    split = unfold encode_int in refl;
    head_ne = λ p. absurd (omega arith);
    reads = λ f rest k. decode_fuel-encode_int z f rest h k;
  }
