-- ===== src/Session/Startup/Digits.antt =====
-- The bits of a byte, as `initializeBitField` shifts them in (pkg/torrent/torrentsession.go).
use Prim.Native.Nat.{bit_and}
use torrent_client.Common.{
  ℕ, zero, suc, ◌+◌, ◌-◌, ◌*◌, ◌/◌, ◌%◌, ◌^◌, ◌<◌, ◌≡◌, refl, inl, inr, Bool, true, false, ◌&&◌,
  List, [], ◌∷◌, ◌++◌, arith, ltb, ◌==◌, if◌then◌else◌, ==_iff, Bool-cases, Bytes, length, get_or,
  replicate, length-append,
}
use torrent_client.Bitfield.{has_piece}
use torrent_client.Bitfield.Bytewise.{from_table, holds_from, same, same→eq}

-- `p` holds of each list of `n` Booleans.
holds_bools : (n : ℕ) → (List Bool → Bool) → Bool
holds_bools zero p = p []
holds_bools (suc n) p = holds_bools n (λ bs. p (true ∷ bs)) && holds_bools n (λ bs. p (false ∷ bs))

from_bools :
    (n : ℕ) (bs : List Bool) (p : List Bool → Bool)
    → length bs ≡ n
    → holds_bools n p ≡ true
    → p bs ≡ true
unfolding holds_bools
from_bools zero [] p e h = h
from_bools zero (b ∷ bs) p e h = absurd (omega arith)
from_bools (suc n) [] p e h = absurd (omega arith)
from_bools (suc n) (true ∷ bs) p e h =
    from_bools n bs (λ bs. p (true ∷ bs)) (omega arith) (ground arith)
from_bools (suc n) (false ∷ bs) p e h =
    from_bools n bs (λ bs. p (false ∷ bs)) (omega arith) (ground arith)

-- the number whose binary digits are the Booleans
abbrev pub value : ℕ → List Bool → ℕ
value acc [] = acc
value acc (b ∷ bs) = value (2 * acc + (if b then 1 else 0)) bs

abbrev pub bit : ℕ → ℕ → Bool
bit x i = ltb 0 (bit_and x (128 / 2 ^ i))

digits_table :
    holds_bools 8 (λ bs. holds_from 0 8 (λ j. same (bit (value 0 bs) j) (get_or bs j false))) ≡ true
unfolding holds_bools holds_from
digits_table = refl

push_table :
    holds_from 0 8 (λ k. holds_bools k (λ bs.
      ((value 0 bs * 2 % 256 + 1) % 256 == value 0 (bs ++ (true ∷ [])))
      && ((value 0 bs * 2 % 256 + 0) % 256 == value 0 (bs ++ (false ∷ [])))))
    ≡ true
unfolding holds_bools holds_from
push_table = refl

pad_table :
    holds_from 0 8 (λ k.
      holds_bools k
        (λ bs. value 0 bs * 2 ^ (8 - k) % 256 == value 0 (bs ++ replicate (8 - k) false)))
    ≡ true
unfolding holds_bools holds_from
pad_table = refl

pub digit :
    (bs : List Bool) (j : ℕ) → length bs ≡ 8 → j < 8 → bit (value 0 bs) j ≡ get_or bs j false
digit bs j e h = same→eq _ _ (from_table 8 j _ (from_bools 8 bs _ e digits_table) h)

pub push :
    (bs : List Bool) (b : Bool)
    → length bs < 8
    → (value 0 bs * 2 % 256 + (if b then 1 else 0)) % 256 ≡ value 0 (bs ++ (b ∷ []))
push bs true h =
    let row = from_bools (length bs) bs _ refl (from_table 8 (length bs) _ push_table h) in
    ground arith
push bs false h =
    let row = from_bools (length bs) bs _ refl (from_table 8 (length bs) _ push_table h) in
    ground arith

pub pad :
    (bs : List Bool)
    → length bs < 8
    → value 0 bs * 2 ^ (8 - length bs) % 256 ≡ value 0 (bs ++ replicate (8 - length bs) false)
pad bs h =
    let row = from_bools (length bs) bs _ refl (from_table 8 (length bs) _ pad_table h) in
    (==_iff _ _).0 row

pub get_or-append :
    (xs ys : List Bool) (j : ℕ)
    → get_or (xs ++ ys) j false
      ≡ (if ltb j (length xs) then get_or xs j false else get_or ys (j - length xs) false)
get_or-append [] ys j = ground arith
get_or-append (x ∷ xs) ys zero = ground arith
get_or-append (x ∷ xs) ys (suc j) = ground (arith, get_or-append xs ys j)

byte_at-append :
    (xs : Bytes) (x : ℕ) (k : ℕ)
    → get_or (xs ++ (x ∷ [])) k 0 ≡ (if k == length xs then x else get_or xs k 0)
byte_at-append [] x zero = refl
byte_at-append [] x (suc k) = ground arith
byte_at-append (y ∷ xs) x zero = ground arith
byte_at-append (y ∷ xs) x (suc k) = ground (arith, byte_at-append xs x k)

-- A byte more gives eight bits more.
pub has_piece-append :
    (bits : Bytes) (x j : ℕ)
    → has_piece (bits ++ (x ∷ [])) j
      ≡ (if j / 8 == length bits then bit x (j % 8) else has_piece bits j)
unfolding has_piece
has_piece-append bits x j =
    let e = length-append bits (x ∷ []) in
    elim (Bool-cases (j / 8 == length bits)) [
      | inl last ↦ rw (last, byte_at-append bits x (j / 8), last) (ground arith)
      | inr other ↦ rw (other, byte_at-append bits x (j / 8), other) (ground arith)
    ]
