-- ===== src/Bencode/RoundTrip/Lists.antt =====
-- The loop of `decodeList` on what `EncodeList` wrote.
use torrent_client.Common.{
  ℕ, zero, suc, ◌+◌, ◌≤◌, ◌≡◌, refl, ap, ◌∙◌, ◌≢◌, [], ◌∷◌, ◌++◌, append_assoc, arith, ◌==◌,
  if◌then◌else◌, Bytes, length, length-append, drop_front,
}
use torrent_client.Common.Outcome.{Outcome, ok}
use torrent_client.Bencode.Encode.{encode, encode_list, or_nil}
use torrent_client.Bencode.Decode.{list_loop, decode_list, decode_switch, decode_fuel}
use torrent_client.Bencode.Normal.{norm, norm_items}
use torrent_client.Bencode.RoundTrip.Strings.{Reads}
use torrent_client.Bencode.Value.{Value, Items, nil, cons, push}

abbrev append_items : Items → Items → Items
append_items nil ys = ys
append_items (cons x xs) ys = cons x (append_items xs ys)

append_items-push :
    (rv : Items) (v : Value) (xs : Items)
    → append_items (push rv v) xs ≡ append_items rv (cons v xs)
unfolding push
append_items-push nil v xs = refl
append_items-push (cons w rv) v xs = ap (cons w) (append_items-push rv v xs)

append_items-nil : (rv : Items) (v : Value) → append_items rv (cons v nil) ≡ push rv v
unfolding push
append_items-nil nil v = refl
append_items-nil (cons w rv) v = ap (cons w) (append_items-nil rv v)

module _ (spare : Bytes) where
  -- Each item's encoding is read back.
  abbrev pub ItemsRead : Items → Type 0
  ItemsRead nil = Unit
  ItemsRead (cons v is) = Reads spare (or_nil (encode v)) (norm v) × ItemsRead is

  -- one round: a value is read, and `c` follows it
  list_round :
      (rec : Bytes → Outcome (Value × ℕ)) (k : ℕ) (b : Bytes) (v : Value) (c : ℕ) (t : Bytes)
      (total : ℕ) (rv : Items)
      → rec (b ++ (c ∷ t)) ≡ ok (v, length b)
      → list_loop spare rec (suc k) (b ++ (c ∷ t)) total rv ≡ (
          if c == b'e'
          then ok (push rv v, total + length b + 1)
          else list_loop spare rec k (c ∷ t) (total + length b) (push rv v))
  unfolding list_loop
  list_round rec k b v c t total rv h =
      rw (h, drop_front b (c ∷ t)) (ground (arith, length-append b (c ∷ t)))

  -- a round that another one follows
  list_round_more :
      (rec : Bytes → Outcome (Value × ℕ)) (k : ℕ) (b : Bytes) (v : Value) (x : Bytes) (c : ℕ)
      (t : Bytes) (total : ℕ) (rv : Items)
      → x ≡ c ∷ t
      → c ≢ b'e'
      → rec (b ++ x) ≡ ok (v, length b)
      → list_loop spare rec (suc k) (b ++ x) total rv
        ≡ list_loop spare rec k x (total + length b) (push rv v)
  list_round_more rec k b v x c t total rv e ne h =
      rw e (list_round rec k b v c t total rv (rw e at h) ∙ ground arith)

  list_loop-encode :
      (f : ℕ) (is : Items) (v : Value) (k : ℕ) (rest : Bytes) (total : ℕ) (rv : Items)
      → ItemsRead (cons v is)
      → length (encode_list (cons v is)) ≤ f
      → length (encode_list (cons v is)) ≤ k
      → list_loop spare (decode_fuel spare f) k (encode_list (cons v is) ++ rest) total rv
        ≡ ok (append_items rv (norm_items (cons v is)), total + length (encode_list (cons v is)))
  unfolding encode norm
  list_loop-encode f is v zero rest total rv (r, rs) hf hk =
      absurd (omega (arith, ap length r.split, length-append (or_nil (encode v)) (encode_list is)))
  list_loop-encode f nil v (suc k) rest total rv (r, rs) hf hk =
      let b = or_nil (encode v) in
      rw (append_assoc) (
        rw
          (list_round (decode_fuel spare f) k b (norm v) b'e' rest total rv
            (r.reads f (b'e' ∷ rest) (omega (arith, length-append b (b'e' ∷ [])))))
          (ground (arith, append_items-nil rv (norm v), length-append b (b'e' ∷ []))))
  list_loop-encode f (cons w is) v (suc k) rest total rv (r, rs) hf hk =
      let b = or_nil (encode v) in
      let x = encode_list (cons w is) in
      let lengths = length-append b x in
      let r' = rs.0 in
      let starts : x ++ rest ≡ r'.head ∷ (r'.tail ++ encode_list is) ++ rest = rw r'.split in
      rw (append_assoc b x rest) (
        list_round_more (decode_fuel spare f) k b (norm v) (x ++ rest) r'.head
          ((r'.tail ++ encode_list is) ++ rest) total rv starts r'.head_ne
          (r.reads f (x ++ rest) (omega arith))
        ∙ list_loop-encode f is w k rest (total + length b) (push rv (norm v)) rs (omega arith)
            (omega (arith, ap length r.split))
        ∙ ground (arith, append_items-push rv (norm v) (norm_items (cons w is)), lengths))

  decode_list-encode :
      (v : Value) (is : Items)
      → ItemsRead (cons v is)
      → (f : ℕ) (rest : Bytes) → length (b'l' ∷ encode_list (cons v is)) ≤ f
      → decode_fuel spare f ((b'l' ∷ encode_list (cons v is)) ++ rest)
        ≡ ok (Value.list (norm_items (cons v is)), length (b'l' ∷ encode_list (cons v is)))
  unfolding decode_fuel decode_switch decode_list
  decode_list-encode v is r zero rest h = absurd (omega arith)
  decode_list-encode v is r (suc f) rest h =
      let x = encode_list (cons v is) in
      let k = length (b'l' ∷ (x ++ rest)) in
      let loop =
        list_loop-encode f is v k rest 1 nil r (omega arith)
          (omega (arith, length-append x rest)) in
      rw loop (ground arith)

  -- The encoding of a list that is not empty is read back.
  pub Reads-list :
      (v : Value) (is : Items)
      → ItemsRead (cons v is)
      → Reads spare (b'l' ∷ encode_list (cons v is)) (Value.list (norm_items (cons v is)))
  Reads-list v is r = record {
    head = b'l';
    tail = encode_list (cons v is);
    split = refl;
    head_ne = λ p. absurd (omega arith);
    reads = decode_list-encode v is r;
  }
