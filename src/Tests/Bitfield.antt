-- ===== src/Tests/Bitfield.antt =====
-- The bitfield of bitfield_test.go.
use torrent_client.Common.{◌/◌, ◌≡◌, ◌&&◌, ◌||◌, [], ◌∷◌, arith, ltb, ◌==◌}
use torrent_client.Bitfield.{set_bit_field_piece, has_piece}
use torrent_client.Bitfield.Laws.{has_piece-set}

has_piece-set_example :
    has_piece (set_bit_field_piece (16 ∷ 1 ∷ []) 9) 15
    ≡ ((9 == 15 && ltb (9 / 8) 2) || has_piece (16 ∷ 1 ∷ []) 15)
has_piece-set_example = has_piece-set (16 ∷ 1 ∷ []) 9 15 (omega arith)
