-- ===== src/Bencode/Encode.antt =====
-- pkg/bencode/bencode_encoder.go: `Encode` and its helpers. `none` is the error result, whose
-- bytes are nil; `EncodeList` and `EncodeDict` drop that error and join the nil.
pub mod Sorting
use torrent_client.Common.{
  ◌≡◌, refl, Bool, true, false, ◌&&◌, ◌||◌, Option, none, some, List, [], ◌∷◌, ◌++◌, ltb, ◌==◌,
  if◌then◌else◌, Bytes, codes, length,
}
use torrent_client.Common.Int.{ℤ}
use torrent_client.Bencode.Decimal.{itoa, format}
use torrent_client.Bencode.Value.{
  Value, int, bytes, str, list, dict, other, Items, nil, cons, Fields, end, field,
}

-- `EncodeInt`
unfoldable pub encode_int : ℤ → Bytes
encode_int z = b'i' ∷ (itoa z ++ (b'e' ∷ []))

-- `EncodeString`
unfoldable pub encode_string : Bytes → Bytes
encode_string s = format (length s) ++ (b':' ∷ s)

-- `<` of Go strings: bytewise
unfoldable pub lt_bytes : Bytes → Bytes → Bool
lt_bytes [] [] = false
lt_bytes [] (y ∷ ys) = true
lt_bytes (x ∷ xs) [] = false
lt_bytes (x ∷ xs) (y ∷ ys) = ltb x y || ((x == y) && lt_bytes xs ys)

-- `sort.Strings` of the keys; each key carries what the map holds under it.
module _ {ℓ} {A : Type ℓ} where
  unfoldable pub insert_key : Bytes → A → List (Bytes × A) → List (Bytes × A)
  unfolding lt_bytes
  insert_key k a [] = (k, a) ∷ []
  insert_key k a ((j, b) ∷ l) =
      if lt_bytes k j then (k, a) ∷ ((j, b) ∷ l) else (j, b) ∷ insert_key k a l

  unfoldable pub sort_keys : List (Bytes × A) → List (Bytes × A)
  unfolding insert_key
  sort_keys [] = []
  sort_keys ((k, a) ∷ l) = insert_key k a (sort_keys l)

-- one round of `EncodeDict`'s loop over the sorted keys, joined to what follows
unfoldable pub join_entries : List (Bytes × Bytes) → Bytes
unfolding encode_string
join_entries [] = b'e' ∷ []
join_entries ((k, e) ∷ l) = encode_string k ++ (e ++ join_entries l)

-- the bytes of a result whose error is dropped
abbrev pub or_nil : Option Bytes → Bytes
or_nil none = []
or_nil (some b) = b

unfoldable mutual
  -- `Encode`
  pub encode : Value → Option Bytes
  encode (int z) = some (encode_int z)
  encode (bytes s) = some (encode_string s)
  encode (str s) = some (encode_string s)
  encode (list is) = some (b'l' ∷ encode_list is)
  encode (dict fs) = some (b'd' ∷ join_entries (sort_keys (encode_dict fs)))
  encode other = none

  -- `EncodeList` behind its first part
  pub encode_list : Items → Bytes
  encode_list nil = b'e' ∷ []
  encode_list (cons v is) = or_nil (encode v) ++ encode_list is

  -- the map of `EncodeDict` with each value encoded
  pub encode_dict : Fields → List (Bytes × Bytes)
  encode_dict end = []
  encode_dict (field k v fs) = (k, or_nil (encode v)) ∷ encode_dict fs

encode_runs :
    encode (
      dict (
        field
          (codes "b")
          (int (ℤ.negsuc 0))
          (field (codes "a") (list (cons (str (codes "xy")) (cons other nil))) end)))
    ≡ some (codes "d1:al2:xye1:bi-1ee")
unfolding encode encode_int encode_string itoa format join_entries sort_keys
encode_runs = refl
