-- ===== src/Bencode/Encode/Sorting.antt =====
-- Sorting a map's entries by their keys (pkg/bencode/bencode_encoder.go).
use torrent_client.Common.{
  ◌≡◌, refl, ap, ◌↔◌, inl, inr, true, false, Option, none, some, List, [], ◌∷◌, arith,
  if◌then◌else◌, Bool-cases, Bytes, All,
}
use torrent_client.Bencode.Value.{eq_bytes}
use torrent_client.Bencode.Encode.{lt_bytes, insert_key, sort_keys}

pub eq_bytes_iff : (a b : Bytes) → (eq_bytes a b ≡ true) ↔ (a ≡ b)
unfolding eq_bytes
eq_bytes_iff (x ∷ a) (y ∷ b) = ground (arith, eq_bytes_iff a b)
eq_bytes_iff _ _ = ground arith

pub eq_bytes_comm : (a b : Bytes) → eq_bytes a b ≡ eq_bytes b a
eq_bytes_comm a b = ground (arith, eq_bytes_iff a b, eq_bytes_iff b a)

module _ {ℓ} {A : Type ℓ} where
  -- no entry has the key
  abbrev pub Absent : Bytes → List (Bytes × A) → Type 0
  Absent k [] = Unit
  Absent k ((j, a) ∷ l) = (eq_bytes j k ≡ false) × Absent k l

  -- the keys are pairwise different, as those of a Go map are
  abbrev pub Distinct : List (Bytes × A) → Type 0
  Distinct [] = Unit
  Distinct ((k, a) ∷ l) = Absent k l × Distinct l

  -- a map read as a list of entries
  abbrev pub find : Bytes → List (Bytes × A) → Option A
  find k [] = none
  find k ((j, a) ∷ l) = if eq_bytes j k then some a else find k l

module _ {ℓ} {A : Type ℓ} where
  Absent-insert :
      (k j : Bytes) (a : A) (l : List (Bytes × A))
      → eq_bytes j k ≡ false
      → Absent k l
      → Absent k (insert_key j a l)
  unfolding insert_key
  Absent-insert k j a [] h t = ground arith
  Absent-insert k j a ((i, b) ∷ l) h t = ground (arith, Absent-insert k j a l)

  Distinct-insert :
      (j : Bytes) (a : A) (l : List (Bytes × A))
      → Absent j l
      → Distinct l
      → Distinct (insert_key j a l)
  unfolding insert_key
  Distinct-insert j a [] h d = ground arith
  Distinct-insert j a ((i, b) ∷ l) h d =
      ground (arith, eq_bytes_comm i j, Distinct-insert j a l, Absent-insert i j a l)

  pub Absent-sort : (k : Bytes) (l : List (Bytes × A)) → Absent k l → Absent k (sort_keys l)
  unfolding sort_keys
  Absent-sort k [] h = tt
  Absent-sort k ((j, a) ∷ l) h = Absent-insert k j a (sort_keys l) h.0 (Absent-sort k l h.1)

  pub Distinct-sort : (l : List (Bytes × A)) → Distinct l → Distinct (sort_keys l)
  unfolding sort_keys
  Distinct-sort [] d = tt
  Distinct-sort ((j, a) ∷ l) d =
      Distinct-insert j a (sort_keys l) (Absent-sort j l d.0) (Distinct-sort l d.1)

  find-insert :
      (k j : Bytes) (a : A) (l : List (Bytes × A))
      → Absent j l
      → find k (insert_key j a l) ≡ (if eq_bytes j k then some a else find k l)
  unfolding insert_key
  find-insert k j a [] h = refl
  find-insert k j a ((i, b) ∷ l) h =
      ground (arith, find-insert k j a l, eq_bytes_iff i k, eq_bytes_iff j k, eq_bytes_iff i j)

  -- Sorting does not change what a map holds.
  pub find-sort : (k : Bytes) (l : List (Bytes × A)) → Distinct l → find k (sort_keys l) ≡ find k l
  unfolding sort_keys
  find-sort k [] d = refl
  find-sort k ((j, a) ∷ l) d =
      ground (arith, find-insert k j a (sort_keys l) (Absent-sort j l d.0), find-sort k l d.1)

  module _ {κ} (P : Bytes × A → Type κ) where
    All-insert :
        (k : Bytes) (a : A) (l : List (Bytes × A)) → P (k, a) → All P l → All P (insert_key k a l)
    unfolding insert_key
    All-insert k a [] h t = (h, tt)
    All-insert k a ((j, b) ∷ l) h t = elim (Bool-cases (lt_bytes k j)) [
      | inl before ↦ rw before (h, t)
      | inr behind ↦ rw behind (t.0, All-insert k a l h t.1)
    ]

    pub All-sort : (l : List (Bytes × A)) → All P l → All P (sort_keys l)
    unfolding sort_keys
    All-sort [] t = tt
    All-sort ((k, a) ∷ l) t = All-insert k a (sort_keys l) t.0 (All-sort l t.1)

-- the entries with another thing under each key
abbrev pub map_entries {ℓ κ} :
    {A : Type ℓ} {B : Type κ} → (A → B) → List (Bytes × A) → List (Bytes × B)
map_entries f [] = []
map_entries f ((k, a) ∷ l) = (k, f a) ∷ map_entries f l

module _ {ℓ κ} {A : Type ℓ} {B : Type κ} (f : A → B) where
  insert_key-map :
      (k : Bytes) (a : A) (l : List (Bytes × A))
      → insert_key k (f a) (map_entries f l) ≡ map_entries f (insert_key k a l)
  unfolding insert_key
  insert_key-map k a [] = refl
  insert_key-map k a ((j, b) ∷ l) = elim (Bool-cases (lt_bytes k j)) [
    | inl before ↦ rw before
    | inr behind ↦ rw behind (ap (λ t. (j, f b) ∷ t) (insert_key-map k a l))
  ]

  pub sort_keys-map :
      (l : List (Bytes × A)) → sort_keys (map_entries f l) ≡ map_entries f (sort_keys l)
  unfolding sort_keys
  sort_keys-map [] = refl
  sort_keys-map ((k, a) ∷ l) = rw (sort_keys-map l) (insert_key-map k a (sort_keys l))

  pub Absent-map : (k : Bytes) (l : List (Bytes × A)) → Absent k l → Absent k (map_entries f l)
  Absent-map k [] h = tt
  Absent-map k ((j, a) ∷ l) h = (h.0, Absent-map k l h.1)

  pub Distinct-map : (l : List (Bytes × A)) → Distinct l → Distinct (map_entries f l)
  Distinct-map [] d = tt
  Distinct-map ((k, a) ∷ l) d = (Absent-map k l d.0, Distinct-map l d.1)
