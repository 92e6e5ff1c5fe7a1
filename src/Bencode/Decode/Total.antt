-- ===== src/Bencode/Decode/Total.antt =====
-- Whether the decoder comes to an end, and how many bytes it counts
-- (pkg/bencode/bencode_decoder.go).
use torrent_client.Common.{
  ℕ, zero, suc, ◌+◌, ◌≤◌, ◌<◌, ◌≡◌, refl, ◌⊎◌, inl, inr, Bool, true, false, ◌&&◌, [], ◌∷◌, arith,
  leb, ◌==◌, if◌then◌else◌, Bool-cases, Bytes, length, length-drop,
}
use torrent_client.Common.Outcome.{
  guard, no_start, Error, ◌>>◌, Ensures-bind, ◌>>=◌, ok, Outcome, ◌>>◌, Ensures,
}
use torrent_client.Bencode.Decode.{
  put, Fields, push, first, slice_from, dict_loop, list_loop, decode_dict, decode_list,
  decode_switch, decode_fuel, decode_with_count, Items, Value, decode_integer, decode_byte_string,
  find_end,
}

abbrev Within {ℓ} : {A : Type ℓ} → ℕ → A × ℕ → Type 0
Within total r = (0 < r.1) × (r.1 ≤ total)

module _ {ℓ} {B : Type ℓ} (Q : B → Type 0) where
  Ensures-guard : (b : Bool) (e : Error) (m : Outcome B) → Ensures Q m → Ensures Q (guard b e >> m)
  Ensures-guard true e m h = h
  Ensures-guard false e m h = tt

  Ensures-if :
      (b : Bool) (m n : Outcome B) → Ensures Q m → Ensures Q n → Ensures Q (if b then m else n)
  Ensures-if true m n h k = h
  Ensures-if false m n h k = k

-- `s[n:]` is `n` bytes shorter.
slice_from_shorter : (s : Bytes) (n : ℕ) → Ensures (λ t. length t + n ≡ length s) (slice_from s n)
slice_from_shorter s n = ground (arith, length-drop n s)

find_end_bound : (i : ℕ) (s : Bytes) → (find_end i s ≡ 0) ⊎ (find_end i s < i + length s)
unfolding find_end
find_end_bound i [] = inl refl
find_end_bound i (c ∷ s) = ground (arith, find_end_bound (i + 1) s)

decode_integer-Within : (s : Bytes) → Ensures (Within (length s)) (decode_integer s)
unfolding decode_integer
decode_integer-Within [] = tt
decode_integer-Within (c ∷ s) = ground (arith, find_end_bound 1 s)

-- the end of a round: a byte follows, and it decides
Ensures-close {ℓ} :
    {B : Type ℓ} (Q : B → Type 0) (t : Bytes) (done more : Outcome B)
    → (0 < length t → Ensures Q done)
    → Ensures Q more
    → Ensures Q (first t >>= λ c. if c == b'e' then done else more)
Ensures-close Q [] done more hd hm = tt
Ensures-close Q (c ∷ t) done more hd hm = elim (Bool-cases (c == b'e')) [
  | inl last ↦ rw last (hd (omega arith))
  | inr next ↦ rw next hm
]

module _ (spare : Bytes) where
  decode_byte_string-Within :
      (s : Bytes) → Ensures (Within (length s + length spare)) (decode_byte_string spare s)
  unfolding decode_byte_string
  decode_byte_string-Within s = ground arith

  module _ (f : ℕ) (rec : Bytes → Outcome (Value × ℕ))
      (below : (x : Bytes)
        → length x < f
        → Ensures (Within (length x + length spare)) (rec x)) where
    list_loop-Within :
        (k : ℕ) (s : Bytes) (total : ℕ) (rv : Items)
        → length s < k
        → length s < f
        → Ensures (Within (total + length s)) (list_loop spare rec k s total rv)
    unfolding list_loop
    list_loop-Within zero s total rv hk hf = absurd (omega arith)
    list_loop-Within (suc k) s total rv hk hf =
        Ensures-bind (Within (length s + length spare)) _ (rec s) _ (below s hf) λ r hr.
          Ensures-bind (λ t. length t + r.1 ≡ length s) _ (slice_from s r.1) _
            (slice_from_shorter s r.1)
            λ t ht.
              let e : total + r.1 + length t ≡ total + length s = omega arith in
              Ensures-close _ t _ _ (λ p. (omega arith, omega arith))
                (rw e at
                  (list_loop-Within k t (total + r.1) (push rv r.0) (omega arith) (omega arith)))

    dict_loop-Within :
        (k : ℕ) (s : Bytes) (total : ℕ) (rv : Fields)
        → length s < k
        → length s < f
        → Ensures (Within (total + length s)) (dict_loop spare rec k s total rv)
    unfolding dict_loop
    dict_loop-Within zero s total rv hk hf = absurd (omega arith)
    dict_loop-Within (suc k) s total rv hk hf =
        Ensures-bind (Within (length s + length spare)) _ (decode_byte_string spare s) _
          (decode_byte_string-Within s)
          λ q hq.
            Ensures-bind (λ u. length u + q.1 ≡ length s) _ (slice_from s q.1) _
              (slice_from_shorter s q.1)
              λ u hu.
                Ensures-bind (Within (length u + length spare)) _ (rec u) _ (below u (omega arith))
                  λ r hr.
                    Ensures-bind (λ t. length t + r.1 ≡ length u) _ (slice_from u r.1) _
                      (slice_from_shorter u r.1)
                      λ t ht.
                        let e : total + q.1 + r.1 + length t ≡ total + length s = omega arith in
                        Ensures-close _ t _ _ (λ p. (omega arith, omega arith))
                          (rw e at (
                            dict_loop-Within k t (total + q.1 + r.1) (put q.0 r.0 rv) (omega arith)
                              (omega arith)))

    decode_dict-Within :
        (c : ℕ) (s : Bytes)
        → length s < f
        → Ensures (Within (suc (length s))) (decode_dict spare rec (c ∷ s))
    unfolding decode_dict
    decode_dict-Within c s hf =
        let e : 1 + length s ≡ suc (length s) = omega arith in
        Ensures-guard _ (c == b'd') no_start _
          (rw e at (dict_loop-Within (suc (length s)) s 1 Fields.end (omega arith) hf))

    decode_list-Within :
        (c : ℕ) (s : Bytes)
        → length s < f
        → Ensures (Within (suc (length s))) (decode_list spare rec (c ∷ s))
    unfolding decode_list
    decode_list-Within c s hf =
        let e : 1 + length s ≡ suc (length s) = omega arith in
        Ensures-guard _ (c == b'l') no_start _
          (rw e at (list_loop-Within (suc (length s)) s 1 Items.nil (omega arith) hf))

    Within-cons :
        {A : Type 0} (m : Outcome (A × ℕ)) (w : A → Value) (n : ℕ)
        → Ensures (Within n) m
        → Ensures (Within (n + length spare)) (m >>= λ (a, c). ok (w a, c))
    Within-cons m w n h = Ensures-bind (Within n) _ m _ h λ r hr. (hr.0, omega arith)

    decode_switch-Within :
        (c : ℕ) (s : Bytes)
        → length s < f
        → Ensures (Within (suc (length s) + length spare)) (decode_switch spare rec c (c ∷ s))
    unfolding decode_switch
    decode_switch-Within c s hf =
        Ensures-if _ (c == b'i') _ _
          (Within-cons (decode_integer (c ∷ s)) Value.int _ (decode_integer-Within (c ∷ s)))
          (Ensures-if _ (leb b'0' c && leb c b'9') _ _
            (Ensures-bind (Within (suc (length s) + length spare)) _
              (decode_byte_string spare (c ∷ s)) _ (decode_byte_string-Within (c ∷ s)) λ r hr. hr)
            (Ensures-if _ (c == b'd') _ _ (Within-cons _ Value.dict _ (decode_dict-Within c s hf)) (
              Ensures-if _ (c == b'l') _ _ (Within-cons _ Value.list _ (decode_list-Within c s hf))
                tt)))

  decode_fuel-Within :
      (f : ℕ) (s : Bytes)
      → length s < f
      → Ensures (Within (length s + length spare)) (decode_fuel spare f s)
  unfolding decode_fuel
  decode_fuel-Within zero s h = absurd (omega arith)
  decode_fuel-Within (suc f) [] h = tt
  decode_fuel-Within (suc f) (c ∷ s) h =
      decode_switch-Within f (decode_fuel spare f) (decode_fuel-Within f) c s (omega arith)

  -- On every input, and whatever the spare capacity holds, `DecodeWithCount` comes to an end, and
  -- where it returns a value it counts one byte or more, and no more than the input and the spare
  -- capacity have.
  pub decode_with_count-total :
      (s : Bytes)
      → Ensures (λ r. (0 < r.1) × (r.1 ≤ length s + length spare)) (decode_with_count spare s)
  unfolding decode_with_count
  decode_with_count-total s = decode_fuel-Within (suc (length s)) s (omega arith)
