-- ===== src/Bitfield/Laws.antt =====
-- Reading a bitfield after a write.
use torrent_client.Common.{
  ℕ, zero, suc, ◌/◌, ◌<◌, ◌≡◌, refl, ◌∙◌, ◌≢◌, inl, inr, ◌&&◌, ◌||◌, [], ◌∷◌, arith, ltb, leb, ◌==◌,
  Bool-cases, Bytes, length, set, get_or, All, length-set, get_or-set_self, get_or-set_ne,
}
use Prim.Native.Nat.{bit_and, bit_or}
use torrent_client.Bitfield.{mask, set_bit_field_piece, has_piece}
use torrent_client.Bitfield.Bytewise.{IsByte, bit-or, or-IsByte}

get_or-IsByte : (bf : Bytes) (b : ℕ) → All IsByte bf → IsByte (get_or bf b 0)
get_or-IsByte [] b h = omega arith
get_or-IsByte (x ∷ bf) zero h = h.0
get_or-IsByte (x ∷ bf) (suc b) h = get_or-IsByte bf b h.1

set-IsByte : (bf : Bytes) (b v : ℕ) → All IsByte bf → IsByte v → All IsByte (set bf b v)
set-IsByte [] b v h hv = tt
set-IsByte (x ∷ bf) zero v h hv = (hv, h.1)
set-IsByte (x ∷ bf) (suc b) v h hv = (h.0, set-IsByte bf b v h.1 hv)

-- A write changes neither the length nor the range of the bytes.
pub set_piece_shape :
    (bf : Bytes) (i : ℕ)
    → All IsByte bf
    → (length (set_bit_field_piece bf i) ≡ length bf) × All IsByte (set_bit_field_piece bf i)
unfolding set_bit_field_piece
set_piece_shape bf i h = elim (Bool-cases (leb (length bf) (i / 8))) [
  | inl out ↦ rw out (refl, h)
  | inr within ↦ rw within (
    length-set bf (i / 8) _,
    set-IsByte bf (i / 8) _ h (or-IsByte (get_or bf (i / 8) 0) i (get_or-IsByte bf (i / 8) h)),
  )
]

has_piece_same :
    (bf : Bytes) (i j v : ℕ)
    → i / 8 < length bf
    → i / 8 ≡ j / 8
    → has_piece (set bf (i / 8) v) j ≡ ltb 0 (bit_and v (mask j))
unfolding has_piece
has_piece_same bf i j v h e =
    rw (← e, get_or-set_self bf (i / 8) v 0 h) (ground (arith, length-set bf (i / 8) v))

has_piece_other :
    (bf : Bytes) (i j v : ℕ) → i / 8 ≢ j / 8 → has_piece (set bf (i / 8) v) j ≡ has_piece bf j
unfolding has_piece
has_piece_other bf i j v h =
    rw (get_or-set_ne bf (i / 8) (j / 8) v 0 h) (rw (length-set bf (i / 8) v))

has_piece_read :
    (bf : Bytes) (i j : ℕ)
    → i / 8 < length bf
    → i / 8 ≡ j / 8
    → has_piece bf j ≡ ltb 0 (bit_and (get_or bf (i / 8) 0) (mask j))
unfolding has_piece
has_piece_read bf i j h e = rw (← e) (ground arith)

has_piece-set_same :
    (bf : Bytes) (i j : ℕ)
    → All IsByte bf
    → i / 8 < length bf
    → i / 8 ≡ j / 8
    → has_piece (set bf (i / 8) (bit_or (get_or bf (i / 8) 0) (mask i))) j
      ≡ (i == j || has_piece bf j)
has_piece-set_same bf i j h lt e =
    let x = get_or bf (i / 8) 0 in
    rw (has_piece_same bf i j (bit_or x (mask i)) lt e, has_piece_read bf i j lt e)
      (rw (bit-or x i j (get_or-IsByte bf (i / 8) h)) (ground arith))

-- After `SetBitFieldPiece(i)` a bitfield of bytes has exactly the pieces that it had, and piece
-- `i` if its byte lies in the bitfield; otherwise the call changes nothing.
pub has_piece-set :
    (bf : Bytes) (i j : ℕ)
    → All IsByte bf
    → has_piece (set_bit_field_piece bf i) j
      ≡ ((i == j && ltb (i / 8) (length bf)) || has_piece bf j)
unfolding set_bit_field_piece
has_piece-set bf i j h =
    let v = bit_or (get_or bf (i / 8) 0) (mask i) in
    elim (Bool-cases (leb (length bf) (i / 8))) [
      | inl out ↦ rw out (ground arith)
      | inr within ↦ rw within (elim (Bool-cases (i / 8 == j / 8)) [
        | inl same ↦ has_piece-set_same bf i j h (ground arith) (ground arith) ∙ ground arith
        | inr differs ↦ has_piece_other bf i j v (ground arith) ∙ ground arith
      ])
    ]

All-set : (bf : Bytes) (i v : ℕ) → All IsByte bf → IsByte v → All IsByte (set bf i v)
All-set [] i v h b = tt
All-set (x ∷ bf) zero v h b = (b, h.1)
All-set (x ∷ bf) (suc i) v h b = (h.0, All-set bf i v h.1 b)

pub set_bit_field_piece-IsByte :
    (bf : Bytes) (i : ℕ) → All IsByte bf → All IsByte (set_bit_field_piece bf i)
unfolding set_bit_field_piece
set_bit_field_piece-IsByte bf i h = elim (Bool-cases (leb (length bf) (i / 8))) [
  | inl out ↦ rw out h
  | inr within ↦
      rw within
        (All-set bf (i / 8) _ h (or-IsByte (get_or bf (i / 8) 0) i (get_or-IsByte bf (i / 8) h)))
]

pub length-set_bit_field_piece :
    (bf : Bytes) (i : ℕ) → length (set_bit_field_piece bf i) ≡ length bf
unfolding set_bit_field_piece
length-set_bit_field_piece bf i = elim (Bool-cases (leb (length bf) (i / 8))) [
  | inl out ↦ rw out
  | inr within ↦ rw within (length-set bf (i / 8) _)
]
