-- ===== src/Bencode/Normal.antt =====
-- The values that survive `Encode` and `Decode`, and the form in which they come back: text as
-- `[]byte`, and the entries of each map in the order of their keys.
use torrent_client.Common.{
  ◌≤◌, ◌≡◌, refl, inl, inr, false, Option, none, some, List, [], ◌∷◌, arith, Bool-cases, Bytes,
  length,
}
use torrent_client.Common.Int.{ℤ, IsInt, max_int}
use torrent_client.Bencode.Encode.{sort_keys}
use torrent_client.Bencode.Encode.Sorting.{Absent, Distinct, find, find-sort}
use torrent_client.Bencode.Value.{Value, Items, Fields, eq_bytes, lookup}

-- No entry has the key.
abbrev pub AbsentField : Bytes → Fields → Type 0
AbsentField k Fields.end = Unit
AbsentField k (Fields.field j v fs) = (eq_bytes j k ≡ false) × AbsentField k fs

-- Numbers and lengths in the range of `int`, no empty list, no empty map, no other type.
mutual
  pub data Encodable : Value → Type 0 where
    int : {z : ℤ} → IsInt z → Encodable (Value.int z)
    bytes : {s : Bytes} → length s ≤ max_int → Encodable (Value.bytes s)
    str : {s : Bytes} → length s ≤ max_int → Encodable (Value.str s)
    list :
        {v : Value} {is : Items}
        → Encodable v
        → EncodableItems is
        → Encodable (Value.list (Items.cons v is))
    dict :
        {k : Bytes} {v : Value} {fs : Fields}
        → EncodableFields (Fields.field k v fs)
        → Encodable (Value.dict (Fields.field k v fs))

  pub data EncodableItems : Items → Type 0 where
    nil : EncodableItems Items.nil
    cons :
        {v : Value} {is : Items}
        → Encodable v
        → EncodableItems is
        → EncodableItems (Items.cons v is)

  pub data EncodableFields : Fields → Type 0 where
    end : EncodableFields Fields.end
    field :
        {k : Bytes} {v : Value} {fs : Fields}
        → length k ≤ max_int
        → AbsentField k fs
        → Encodable v
        → EncodableFields fs
        → EncodableFields (Fields.field k v fs)

unfoldable pub of_list : List (Bytes × Value) → Fields
of_list [] = Fields.end
of_list ((k, v) ∷ l) = Fields.field k v (of_list l)

unfoldable mutual
  pub norm : Value → Value
  norm (Value.int z) = Value.int z
  norm (Value.bytes s) = Value.bytes s
  norm (Value.str s) = Value.bytes s
  norm (Value.list is) = Value.list (norm_items is)
  norm (Value.dict fs) = Value.dict (of_list (sort_keys (norm_fields fs)))
  norm Value.other = Value.other

  pub norm_items : Items → Items
  norm_items Items.nil = Items.nil
  norm_items (Items.cons v is) = Items.cons (norm v) (norm_items is)

  pub norm_fields : Fields → List (Bytes × Value)
  norm_fields Fields.end = []
  norm_fields (Fields.field k v fs) = (k, norm v) ∷ norm_fields fs

abbrev pub map_option {ℓ κ} : {A : Type ℓ} {B : Type κ} → (A → B) → Option A → Option B
map_option f none = none
map_option f (some a) = some (f a)

-- the entries of `dict fs` in normal form
unfoldable pub norm_dict : Fields → Fields
unfolding norm of_list
norm_dict fs = of_list (sort_keys (norm_fields fs))

lookup-of_list : (k : Bytes) (l : List (Bytes × Value)) → lookup k (of_list l) ≡ find k l
unfolding lookup of_list
lookup-of_list k [] = refl
lookup-of_list k ((j, v) ∷ l) = ground (arith, lookup-of_list k l)

find-norm_fields :
    (k : Bytes) (fs : Fields) → find k (norm_fields fs) ≡ map_option norm (lookup k fs)
unfolding lookup norm
find-norm_fields k Fields.end = refl
find-norm_fields k (Fields.field j v fs) = elim (Bool-cases (eq_bytes j k)) [
  | inl same ↦ rw same
  | inr differs ↦ rw differs (find-norm_fields k fs)
]

norm_fields-Absent : (k : Bytes) (fs : Fields) → AbsentField k fs → Absent k (norm_fields fs)
unfolding norm
norm_fields-Absent k Fields.end h = tt
norm_fields-Absent k (Fields.field j v fs) h = (h.0, norm_fields-Absent k fs h.1)

pub norm_fields-Distinct : {fs : Fields} → EncodableFields fs → Distinct (norm_fields fs)
unfolding norm
norm_fields-Distinct EncodableFields.end = tt
norm_fields-Distinct (EncodableFields.field {k} {v} {fs} h a e es) =
    (norm_fields-Absent k fs a, norm_fields-Distinct es)

-- The normal form of a map holds what the map holds: each key with its value in normal form.
pub lookup-norm_dict :
    (k : Bytes) (fs : Fields)
    → EncodableFields fs
    → lookup k (norm_dict fs) ≡ map_option norm (lookup k fs)
unfolding norm_dict
lookup-norm_dict k fs e =
    rw (lookup-of_list k, find-sort k (norm_fields fs) (norm_fields-Distinct e))
      (find-norm_fields k fs)
