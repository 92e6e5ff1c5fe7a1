-- ===== src/Bencode/RoundTrip/Dicts.antt =====
-- The loop of `decodeDict` on what `EncodeDict` wrote.
use torrent_client.Common.{
  ℕ, zero, suc, ◌+◌, ◌≤◌, ◌≡◌, refl, ap, ◌∙◌, ◌≢◌, inl, inr, false, List, [], ◌∷◌, ◌++◌,
  append_assoc, arith, ◌==◌, if◌then◌else◌, Bool-cases, Bytes, length, length-append, All,
}
use torrent_client.Common.Int.{max_int}
use torrent_client.Common.Outcome.{Outcome, ok}
use torrent_client.Bencode.Encode.{
  lt_bytes, sort_keys, insert_key, encode, encode_dict, encode_string, or_nil, join_entries,
}
use torrent_client.Bencode.Encode.Sorting.{
  All-sort, sort_keys-map, Distinct-sort, Absent, Distinct, map_entries, eq_bytes_comm,
}
use torrent_client.Bencode.Decode.ByteString.{slice_from-append}
use torrent_client.Bencode.Decode.{decode_dict, decode_switch, dict_loop, decode_fuel}
use torrent_client.Bencode.Normal.{
  norm_fields-Distinct, EncodableFields, norm, norm_fields, of_list,
}
use torrent_client.Bencode.RoundTrip.Strings.{Reads, decode_byte_string-encode, encode_string_cons}
use torrent_client.Bencode.Value.{Value, Fields, end, field, put, eq_bytes}

-- What stands under a key: the encoding of its value, and the value that it is read back to.
abbrev Entry : Type 0
Entry = Bytes × Value

encoded : Entry → Bytes
encoded e = e.0

value : Entry → Value
value e = e.1

abbrev entries : Fields → List (Bytes × Entry)
entries end = []
entries (field k v fs) = (k, (or_nil (encode v), norm v)) ∷ entries fs

encode_dict-entries : (fs : Fields) → encode_dict fs ≡ map_entries encoded (entries fs)
unfolding encode encoded
encode_dict-entries end = refl
encode_dict-entries (field k v fs) = rw (encode_dict-entries fs)

norm_fields-entries : (fs : Fields) → norm_fields fs ≡ map_entries value (entries fs)
unfolding norm value
norm_fields-entries end = refl
norm_fields-entries (field k v fs) = rw (norm_fields-entries fs)

-- Assigning to a new key appends an entry.
put-of_list :
    (k : Bytes) (v : Value) (l : List (Bytes × Value))
    → Absent k l
    → put k v (of_list l) ≡ of_list (l ++ ((k, v) ∷ []))
unfolding put of_list
put-of_list k v [] h = refl
put-of_list k v ((j, w) ∷ l) h = ground (arith, put-of_list k v l h.1)

Absent-middle :
    (j k : Bytes) (v : Value) (l r : List (Bytes × Value))
    → Absent j (l ++ ((k, v) ∷ r))
    → eq_bytes k j ≡ false
Absent-middle j k v [] r h = h.0
Absent-middle j k v ((i, w) ∷ l) r h = Absent-middle j k v l r h.1

Distinct-middle :
    (k : Bytes) (v : Value) (l r : List (Bytes × Value)) → Distinct (l ++ ((k, v) ∷ r)) → Absent k l
Distinct-middle k v [] r d = tt
Distinct-middle k v ((j, w) ∷ l) r d =
    (eq_bytes_comm j k ∙ Absent-middle j k v l r d.0, Distinct-middle k v l r d.1)

module _ (spare : Bytes) where
  abbrev EntryReads : Bytes × Entry → Type 0
  EntryReads e = (length e.0 ≤ max_int) × Reads spare e.1.0 e.1.1

  -- Each key has a length that fits, and each value's encoding is read back.
  abbrev pub FieldsRead : Fields → Type 0
  FieldsRead end = Unit
  FieldsRead (field k v fs) =
      (length k ≤ max_int) × Reads spare (or_nil (encode v)) (norm v) × FieldsRead fs

  entries-EntryReads : (fs : Fields) → FieldsRead fs → All EntryReads (entries fs)
  entries-EntryReads end h = tt
  entries-EntryReads (field k v fs) (h, r, rs) = ((h, r), entries-EntryReads fs rs)

  -- one round: a key and a value are read, and `c` follows them
  dict_round :
      (rec : Bytes → Outcome (Value × ℕ)) (n : ℕ) (k b : Bytes) (v : Value) (c : ℕ) (t : Bytes)
      (total : ℕ) (rv : Fields)
      → length k ≤ max_int
      → rec (b ++ (c ∷ t)) ≡ ok (v, length b)
      → dict_loop spare rec (suc n) (encode_string k ++ (b ++ (c ∷ t))) total rv ≡ (
          if c == b'e'
          then ok (put k v rv, total + length (encode_string k) + length b + 1)
          else dict_loop spare rec n
              (c ∷ t)
              (total + length (encode_string k) + length b)
              (put k v rv))
  unfolding dict_loop
  dict_round rec n k b v c t total rv hk h =
      let s = encode_string k in
      let x = b ++ (c ∷ t) in
      rw (decode_byte_string-encode spare k x hk)
        (rw (slice_from-append s x) (rw (h, slice_from-append b (c ∷ t))))

  -- a round that another one follows
  dict_round_more :
      (rec : Bytes → Outcome (Value × ℕ)) (n : ℕ) (k b : Bytes) (v : Value) (x : Bytes) (c : ℕ)
      (t : Bytes) (total : ℕ) (rv : Fields)
      → length k ≤ max_int
      → x ≡ c ∷ t
      → c ≢ b'e'
      → rec (b ++ x) ≡ ok (v, length b)
      → dict_loop spare rec (suc n) (encode_string k ++ (b ++ x)) total rv
        ≡ dict_loop spare rec n x (total + length (encode_string k) + length b) (put k v rv)
  dict_round_more rec n k b v x c t total rv hk e ne h =
      rw e (dict_round rec n k b v c t total rv hk (rw e at h) ∙ ground arith)

  join_split : (k b x rest : Bytes) → (k ++ (b ++ x)) ++ rest ≡ k ++ (b ++ (x ++ rest))
  join_split k b x rest = simp append_assoc

  length-join : (k b x : Bytes) → length (k ++ (b ++ x)) ≡ length k + length b + length x
  length-join k b x = omega (arith, length-append k (b ++ x), length-append b x)

  dict_loop-encode :
      (f : ℕ) (l : List (Bytes × Entry)) (k : Bytes) (e : Entry) (n : ℕ) (rest : Bytes) (total : ℕ)
      (done : List (Bytes × Value))
      → All EntryReads ((k, e) ∷ l)
      → Distinct (done ++ map_entries value ((k, e) ∷ l))
      → length (join_entries (map_entries encoded ((k, e) ∷ l))) ≤ f
      → length (join_entries (map_entries encoded ((k, e) ∷ l))) ≤ n
      → dict_loop spare
          (decode_fuel spare f)
          n
          (join_entries (map_entries encoded ((k, e) ∷ l)) ++ rest)
          total
          (of_list done)
        ≡ ok (
          of_list (done ++ map_entries value ((k, e) ∷ l)),
          total + length (join_entries (map_entries encoded ((k, e) ∷ l))),
        )
  unfolding join_entries encoded value
  dict_loop-encode f l k e zero rest total done ((hk, r), rs) d hf hn =
      let (c, t, p, q) = encode_string_cons spare k in
      absurd (
        omega (
          arith,
          ap length p,
          length-append (encode_string k) (e.0 ++ join_entries (map_entries encoded l)),
        ))
  dict_loop-encode f [] k e (suc n) rest total done ((hk, r), rs) d hf hn =
      let s = encode_string k in
      let lengths = length-join s e.0 (b'e' ∷ []) in
      rw (join_split s e.0 (b'e' ∷ []) rest) (
        dict_round (decode_fuel spare f) n k e.0 e.1 b'e' rest total (of_list done) hk
          (r.reads f (b'e' ∷ rest) (omega arith))
        ∙ ground (arith, put-of_list k e.1 done (Distinct-middle k e.1 done [] d), lengths))
  dict_loop-encode f ((j, e') ∷ l) k e (suc n) rest total done ((hk, r), rs) d hf hn =
      let s = encode_string k in
      let x = join_entries (map_entries encoded ((j, e') ∷ l)) in
      let lengths = length-join s e.0 x in
      let (c, t, p, q) = encode_string_cons spare j in
      let (c', t', p', q') = encode_string_cons spare k in
      let y = e'.0 ++ join_entries (map_entries encoded l) in
      let starts : x ++ rest ≡ c ∷ (t ++ y) ++ rest = rw p in
      let tails = map_entries value ((j, e') ∷ l) in
      let moved = append_assoc done ((k, e.1) ∷ []) tails in
      rw (join_split s e.0 x rest) (
        dict_round_more (decode_fuel spare f) n k e.0 e.1 (x ++ rest) c ((t ++ y) ++ rest) total
          (of_list done) hk starts (λ w. absurd (omega arith)) (r.reads f (x ++ rest) (omega arith))
        ∙ rw (put-of_list k e.1 done (Distinct-middle k e.1 done tails d)) (
            dict_loop-encode f l j e' n rest (total + length s + length e.0)
              (done ++ ((k, e.1) ∷ [])) rs (rw moved d) (omega arith) (omega (arith, ap length p'))
            ∙ rw moved (ground (arith, lengths))))

  insert_key-cons :
      (k : Bytes) (e : Entry) (l : List (Bytes × Entry))
      → (j : Bytes) × (d : Entry) × (m : List (Bytes × Entry)) × (insert_key k e l ≡ (j, d) ∷ m)
  unfolding insert_key
  insert_key-cons k e [] = (k, e, [], refl)
  insert_key-cons k e ((j, d) ∷ l) = elim (Bool-cases (lt_bytes k j)) [
    | inl before ↦ (k, e, (j, d) ∷ l, rw before)
    | inr behind ↦ (j, d, insert_key k e l, rw behind)
  ]

  sort_keys-cons :
      (k : Bytes) (e : Entry) (l : List (Bytes × Entry))
      → (j : Bytes) × (d : Entry) × (m : List (Bytes × Entry)) × (sort_keys ((k, e) ∷ l)
          ≡ (j, d) ∷ m)
  unfolding sort_keys
  sort_keys-cons k e l = insert_key-cons k e (sort_keys l)

  decode_dict-encode :
      (l : List (Bytes × Entry)) (k : Bytes) (e : Entry)
      → All EntryReads ((k, e) ∷ l)
      → Distinct (map_entries value ((k, e) ∷ l))
      → (f : ℕ) (rest : Bytes) → length (b'd' ∷ join_entries (map_entries encoded ((k, e) ∷ l))) ≤ f
      → decode_fuel spare f ((b'd' ∷ join_entries (map_entries encoded ((k, e) ∷ l))) ++ rest)
        ≡ ok (
          Value.dict (of_list (map_entries value ((k, e) ∷ l))),
          length (b'd' ∷ join_entries (map_entries encoded ((k, e) ∷ l))),
        )
  unfolding decode_fuel decode_switch decode_dict of_list
  decode_dict-encode l k e h d zero rest hf = absurd (omega arith)
  decode_dict-encode l k e h d (suc f) rest hf =
      let x = join_entries (map_entries encoded ((k, e) ∷ l)) in
      let n = length (b'd' ∷ (x ++ rest)) in
      let loop =
        dict_loop-encode f l k e n rest 1 [] h d (omega arith)
          (omega (arith, length-append x rest)) in
      rw loop (ground arith)

  Reads-entries :
      (s l : List (Bytes × Entry)) (k : Bytes) (e : Entry)
      → s ≡ (k, e) ∷ l
      → All EntryReads s
      → Distinct (map_entries value s)
      → Reads spare
          (b'd' ∷ join_entries (map_entries encoded s))
          (Value.dict (of_list (map_entries value s)))
  Reads-entries s l k e p h d = rw p (record {
    head = b'd';
    tail = join_entries (map_entries encoded ((k, e) ∷ l));
    split = refl;
    head_ne = λ q. absurd (omega arith);
    reads = decode_dict-encode l k e (rw p at h) (rw p at d);
  })

  -- The encoding of a map that is not empty is read back, its entries in the order of their keys.
  pub Reads-dict :
      (k : Bytes) (v : Value) (fs : Fields)
      → EncodableFields (field k v fs)
      → FieldsRead (field k v fs)
      → Reads spare
          (b'd' ∷ join_entries (sort_keys (encode_dict (field k v fs))))
          (Value.dict (of_list (sort_keys (norm_fields (field k v fs)))))
  Reads-dict k v fs es h =
      let l = entries (field k v fs) in
      let apart : Distinct (map_entries value l) =
        rw (norm_fields-entries (field k v fs)) at (norm_fields-Distinct es) in
      let distinct = Distinct-sort (map_entries value l) apart in
      let (j, d, m, p) = sort_keys-cons k (or_nil (encode v), norm v) (entries fs) in
      rw
        (
          encode_dict-entries (field k v fs),
          norm_fields-entries (field k v fs),
          sort_keys-map encoded l,
          sort_keys-map value l,
        )
        (Reads-entries (sort_keys l) m j d p
          (All-sort EntryReads l (entries-EntryReads (field k v fs) h))
          (rw (sort_keys-map value l) at distinct))
