-- ===== src/Bitfield.antt =====
-- pkg/torrent/bitfield.go: `Bitfield` and `ThreadSafeBitfield`. A piece index is a number: every
-- caller passes a loop counter or a `uint32`. The methods of `ThreadSafeBitfield` run under its
-- lock, so each is one step.
pub mod Bytewise
pub mod Laws
use Prim.Native.Nat.{bit_and, bit_or}
use torrent_client.Common.{
  ℕ, ◌/◌, ◌%◌, ◌^◌, ◌≡◌, refl, Bool, false, [], ◌∷◌, ◌++◌, ltb, leb, ◌==◌, if◌then◌else◌, Bytes,
  length, set, get_or, take, drop, replicate,
}

-- `byte(128) >> bit`
abbrev pub mask : ℕ → ℕ
mask index = 128 / 2 ^ (index % 8)

-- `Bitfield.SetBitFieldPiece`
unfoldable pub set_bit_field_piece : Bytes → ℕ → Bytes
set_bit_field_piece bf index =
    let b = index / 8 in
    if leb (length bf) b then bf else set bf b (bit_or (get_or bf b 0) (mask index))

-- `Bitfield.hasPiece`
unfoldable pub has_piece : Bytes → ℕ → Bool
has_piece bf index =
    let b = index / 8 in
    if leb (length bf) b then false else ltb 0 (bit_and (get_or bf b 0) (mask index))

-- `copy(dst, src)`: the result in `dst`
unfoldable pub copy_into : Bytes → Bytes → Bytes
copy_into dst src = take (length dst) src ++ drop (length src) dst

-- The slice and the spare bytes of its backing array.
pub record ThreadSafeBitfield : Type 0 where
  pub bitfield : Bytes
  pub spare : Bytes

unfoldable pub new_thread_safe_bitfield : Bytes → Bytes → ThreadSafeBitfield
new_thread_safe_bitfield bitfield spare = record { bitfield = bitfield; spare = spare }

unfoldable pub extend_to_capacity : ThreadSafeBitfield → ThreadSafeBitfield
extend_to_capacity bf = record { bitfield = bf.bitfield ++ bf.spare; spare = [] }

-- `append` writes over the first spare byte, or moves to a larger array; how much room `growth`
-- the runtime leaves there is not fixed by the language.
unfoldable pub append_byte : (growth : ℕ → ℕ) → ThreadSafeBitfield → ℕ → ThreadSafeBitfield
append_byte growth bf b = record {
  bitfield = bf.bitfield ++ (b ∷ []);
  spare =
      if length bf.spare == 0 then replicate (growth (length bf.bitfield)) 0 else drop 1 bf.spare;
}

unfoldable pub copy : ThreadSafeBitfield → Bytes → Bytes
unfolding copy_into
copy bf dst = copy_into dst bf.bitfield

unfoldable pub set_piece : ThreadSafeBitfield → ℕ → ThreadSafeBitfield
unfolding set_bit_field_piece
set_piece bf index = record bf { bitfield = set_bit_field_piece bf.bitfield index }

unfoldable pub safe_has_piece : ThreadSafeBitfield → ℕ → Bool
unfolding has_piece
safe_has_piece bf index = has_piece bf.bitfield index

abbrev three_set : Bytes
three_set = set_bit_field_piece (set_bit_field_piece (set_bit_field_piece (0 ∷ 0 ∷ []) 3) 9) 15

set_runs : three_set ≡ 16 ∷ 65 ∷ []
unfolding set_bit_field_piece
set_runs = refl
