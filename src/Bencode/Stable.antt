-- ===== src/Bencode/Stable.antt =====
-- `Encode` writes the same for a value and for what `Decode` makes of it (pkg/bencode).
use torrent_client.Common.{
  ◌≡◌, refl, ap, ◌∙◌, inl, inr, true, false, some, List, [], ◌∷◌, arith, Bool-cases, Bytes,
}
use torrent_client.Bencode.Value.{Value, Items, Fields, eq_bytes}
use torrent_client.Bencode.Encode.{
  lt_bytes, insert_key, sort_keys, join_entries, or_nil, encode, encode_list, encode_dict,
}
use torrent_client.Bencode.Encode.Sorting.{
  Absent, Distinct, Absent-sort, map_entries, sort_keys-map,
}
use torrent_client.Bencode.Normal.{
  norm, norm_items, norm_fields, of_list, Encodable, EncodableItems, EncodableFields,
  norm_fields-Distinct,
}

lt_bytes_total : (a b : Bytes) → eq_bytes b a ≡ false → lt_bytes a b ≡ false → lt_bytes b a ≡ true
unfolding lt_bytes eq_bytes
lt_bytes_total (x ∷ a) (y ∷ b) = ground (arith, lt_bytes_total a b)
lt_bytes_total _ _ = ground arith

module _ {ℓ} {A : Type ℓ} where
  -- The key comes before the first one of the list.
  abbrev Below : Bytes → List (Bytes × A) → Type 0
  Below k [] = Unit
  Below k ((j, b) ∷ l) = lt_bytes k j ≡ true

  abbrev IsSorted : List (Bytes × A) → Type 0
  IsSorted [] = Unit
  IsSorted ((k, a) ∷ l) = Below k l × IsSorted l

  Below-insert :
      (j k : Bytes) (a : A) (l : List (Bytes × A))
      → lt_bytes j k ≡ true
      → Below j l
      → Below j (insert_key k a l)
  unfolding insert_key
  Below-insert j k a [] lt below = lt
  Below-insert j k a ((i, b) ∷ l) lt below = elim (Bool-cases (lt_bytes k i)) [
    | inl before ↦ rw before lt
    | inr behind ↦ rw behind below
  ]

  insert_key-IsSorted :
      (k : Bytes) (a : A) (l : List (Bytes × A))
      → Absent k l
      → IsSorted l
      → IsSorted (insert_key k a l)
  unfolding insert_key
  insert_key-IsSorted k a [] absent h = (tt, tt)
  insert_key-IsSorted k a ((j, b) ∷ l) absent h = elim (Bool-cases (lt_bytes k j)) [
    | inl before ↦ rw before (before, h)
    | inr behind ↦ rw behind (
      Below-insert j k a l (lt_bytes_total k j absent.0 behind) h.0,
      insert_key-IsSorted k a l absent.1 h.1,
    )
  ]

  sort_keys-IsSorted : (l : List (Bytes × A)) → Distinct l → IsSorted (sort_keys l)
  unfolding sort_keys
  sort_keys-IsSorted [] d = tt
  sort_keys-IsSorted ((k, a) ∷ l) d =
      insert_key-IsSorted k a (sort_keys l) (Absent-sort k l d.0) (sort_keys-IsSorted l d.1)

  insert_key-Below :
      (k : Bytes) (a : A) (l : List (Bytes × A)) → Below k l → insert_key k a l ≡ (k, a) ∷ l
  unfolding insert_key
  insert_key-Below k a [] h = refl
  insert_key-Below k a ((j, b) ∷ l) h = rw h

  sort_keys_sorted : (l : List (Bytes × A)) → IsSorted l → sort_keys l ≡ l
  unfolding sort_keys
  sort_keys_sorted [] h = refl
  sort_keys_sorted ((k, a) ∷ l) h = rw (sort_keys_sorted l h.1) (insert_key-Below k a l h.0)

  -- Entries with different keys that are sorted twice are sorted.
  sort_keys_twice : (l : List (Bytes × A)) → Distinct l → sort_keys (sort_keys l) ≡ sort_keys l
  sort_keys_twice l d = sort_keys_sorted (sort_keys l) (sort_keys-IsSorted l d)

abbrev written : Value → Bytes
written v = or_nil (encode v)

encode_dict-of_list : (l : List (Bytes × Value)) → encode_dict (of_list l) ≡ map_entries written l
unfolding encode of_list
encode_dict-of_list [] = refl
encode_dict-of_list ((k, v) ∷ l) = ap (λ t. (k, written v) ∷ t) (encode_dict-of_list l)

-- The entries of a sorted map are encoded in the order of the map's own.
sorted_again :
    (l : List (Bytes × Value))
    → Distinct l
    → sort_keys (encode_dict (of_list (sort_keys l))) ≡ sort_keys (map_entries written l)
sorted_again l d = rw (
  encode_dict-of_list (sort_keys l),
  sort_keys-map written l,
  sort_keys-map written (sort_keys l),
  sort_keys_twice l d,
)

mutual
  unfolding encode norm

  -- `Encode` writes for the normal form of a value what it writes for the value.
  pub encode-norm : {v : Value} → Encodable v → encode (norm v) ≡ encode v
  encode-norm (Encodable.int h) = refl
  encode-norm (Encodable.bytes h) = refl
  encode-norm (Encodable.str h) = refl
  encode-norm (Encodable.list e es) =
      let head = encode-norm e in let tail = encode_list-norm es in rw (head, tail)
  encode-norm (Encodable.dict {k} {v} {fs} es) =
      ap (λ l. some (b'd' ∷ join_entries l))
        (sorted_again (norm_fields (Fields.field k v fs)) (norm_fields-Distinct es)
          ∙ ap sort_keys (encode_dict-norm es))

  encode_list-norm : {is : Items} → EncodableItems is → encode_list (norm_items is) ≡ encode_list is
  encode_list-norm EncodableItems.nil = refl
  encode_list-norm (EncodableItems.cons e es) =
      let head = encode-norm e in let tail = encode_list-norm es in rw (head, tail)

  encode_dict-norm :
      {fs : Fields} → EncodableFields fs → map_entries written (norm_fields fs) ≡ encode_dict fs
  encode_dict-norm EncodableFields.end = refl
  encode_dict-norm (EncodableFields.field h a e es) =
      let head = encode-norm e in let tail = encode_dict-norm es in rw (head, tail)
