-- ===== src/Bitfield/Bytewise.antt =====
-- Single bits of a byte, by evaluation over all bytes.
use Prim.Native.Nat.{bit_and, bit_or}
use torrent_client.Common.{
  ℕ, zero, suc, ◌+◌, ◌/◌, ◌%◌, ◌^◌, ◌≤◌, ◌<◌, ◌≡◌, refl, inl, inr, Bool, true, false, not, ◌&&◌,
  ◌||◌, arith, ltb, ◌==◌, ltb→lt, ==_iff, Bool-cases,
}
use torrent_client.Bitfield.{mask}

abbrev pub IsByte : ℕ → Type 0
IsByte c = c < 256

-- `p` holds of each of the `k` numbers from `start` on.
unfoldable pub holds_from : (start k : ℕ) → (ℕ → Bool) → Bool
holds_from start zero p = true
holds_from start (suc k) p = p start && holds_from (start + 1) k p

holds_from_lem :
    (k start x : ℕ) (p : ℕ → Bool)
    → start ≤ x
    → x < start + k
    → holds_from start k p ≡ true
    → p x ≡ true
unfolding holds_from
holds_from_lem zero start x p lo hi h = absurd (omega arith)
holds_from_lem (suc k) start x p lo hi h = elim (Bool-cases (start == x)) [
  | inl here ↦ rw ((==_iff start x).0 here) at (left (p start) (holds_from (start + 1) k p) h)
  | inr later ↦
      holds_from_lem k (start + 1) x p (ground arith) (omega arith)
        (right (p start) (holds_from (start + 1) k p) h)
]
  where
    left : (a b : Bool) → a && b ≡ true → a ≡ true
    left a b e = ground arith

    right : (a b : Bool) → a && b ≡ true → b ≡ true
    right a b e = ground arith

-- A table over the numbers below `k` that has been run through.
pub from_table : (k x : ℕ) (p : ℕ → Bool) → holds_from 0 k p ≡ true → x < k → p x ≡ true
from_table k x p h lt = holds_from_lem k 0 x p (omega arith) (omega arith) h

abbrev pub same : Bool → Bool → Bool
same true b = b
same false b = not b

pub same→eq : (a b : Bool) → same a b ≡ true → a ≡ b
same→eq a b h = ground arith

-- the bits of a byte, numbered from the highest
abbrev bit : ℕ → ℕ → Bool
bit x i = ltb 0 (bit_and x (128 / 2 ^ i))

bits_table :
    holds_from 0 256 (λ x.
      holds_from 0 8
        (λ i. holds_from 0 8 (λ j. same (bit (bit_or x (128 / 2 ^ i)) j) ((i == j) || bit x j))))
    ≡ true
unfolding holds_from
bits_table = refl

range_table : holds_from 0 256 (λ x. holds_from 0 8 (λ i. ltb (bit_or x (128 / 2 ^ i)) 256)) ≡ true
unfolding holds_from
range_table = refl

pub bit-or :
    (x i j : ℕ)
    → IsByte x
    → ltb 0 (bit_and (bit_or x (mask i)) (mask j))
      ≡ ((i % 8 == j % 8) || ltb 0 (bit_and x (mask j)))
bit-or x i j h =
    let row = from_table 256 x _ bits_table h in
    let column = from_table 8 (i % 8) _ row (omega arith) in
    same→eq _ _ (from_table 8 (j % 8) _ column (omega arith))

pub or-IsByte : (x i : ℕ) → IsByte x → IsByte (bit_or x (mask i))
or-IsByte x i h =
    ltb→lt _ _ (from_table 8 (i % 8) _ (from_table 256 x _ range_table h) (omega arith))
