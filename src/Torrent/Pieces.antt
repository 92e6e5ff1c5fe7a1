-- ===== src/Torrent/Pieces.antt =====
-- The pieces of a torrent cut its content up.
use native.Mathlib.Nat.{le-div_iff_mul-le}
use torrent_client.Common.{ℕ, suc, ◌+◌, ◌-◌, ◌*◌, ◌≤◌, ◌<◌, arith}
use torrent_client.Torrent.{get_total_length, TorrentInfo, get_num_pieces, ceil_div}

pub ceil_div-lower : (n d k : ℕ) → 0 < d → k < ceil_div n d → k * d < n
unfolding ceil_div
ceil_div-lower n d k h lt =
    let scaled : suc k * d ≤ n + (d - 1) = (le-div_iff_mul-le h).0 lt in omega arith

pub ceil_div-upper : (n d : ℕ) → 0 < d → n ≤ ceil_div n d * d
unfolding ceil_div
ceil_div-upper n d h = grind arith

-- A piece begins within the torrent, and the last one ends with it.
pub get_num_pieces-lower :
    (ti : TorrentInfo) (k : ℕ)
    → 0 < ti.piece_length
    → k < get_num_pieces ti
    → k * ti.piece_length < get_total_length ti
unfolding get_num_pieces
get_num_pieces-lower ti k h lt = ceil_div-lower (get_total_length ti) ti.piece_length k h lt

pub get_num_pieces-upper :
    (ti : TorrentInfo)
    → 0 < ti.piece_length
    → get_total_length ti ≤ get_num_pieces ti * ti.piece_length
unfolding get_num_pieces
get_num_pieces-upper ti h = ceil_div-upper (get_total_length ti) ti.piece_length h
