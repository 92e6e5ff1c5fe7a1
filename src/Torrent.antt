-- ===== src/Torrent.antt =====
-- pkg/torrent/common.go: what a torrent says of its content. Lengths are numbers: a torrent file
-- with a negative length is outside the model. `math.Ceil` of a quotient of `float64`s is the
-- quotient of the integers rounded up, which it equals for lengths below 2^52.
pub mod Pieces
pub mod Codec
use torrent_client.Common.{
  length, ℕ, ◌+◌, ◌-◌, ◌*◌, ◌/◌, Bool, not, List, [], ◌∷◌, leb, ◌==◌, if◌then◌else◌, Bytes, take,
  drop,
}
use torrent_client.Common.Outcome.{Outcome, ok, check, ◌>>◌}

pub record TorrentFile : Type 0 where
  pub length : ℕ
  pub path : List Bytes

pub record TorrentInfo : Type 0 where
  pub name : Bytes
  pub length : ℕ
  pub piece_length : ℕ
  pub pieces : Bytes
  pub files : List TorrentFile

-- `int(math.Ceil(float64(n) / float64(d)))`, for a positive `d`
unfoldable pub ceil_div : ℕ → ℕ → ℕ
ceil_div n d = (n + (d - 1)) / d

-- the sum over the files in `GetTotalLength`
unfoldable pub sum_lengths : List TorrentFile → ℕ
sum_lengths [] = 0
sum_lengths (f ∷ fs) = f.length + sum_lengths fs

unfoldable pub get_total_length : TorrentInfo → ℕ
unfolding sum_lengths
get_total_length t = if t.length == 0 then sum_lengths t.files else t.length

unfoldable pub get_num_pieces : TorrentInfo → ℕ
unfolding ceil_div
get_num_pieces t = ceil_div (get_total_length t) t.piece_length

unfoldable pub is_single_file : TorrentInfo → Bool
is_single_file t = not (t.length == 0)

-- `t.Pieces[20*piece : 20*(piece+1)]`; the slice of the decoder has no spare capacity.
unfoldable pub get_piece_hash : TorrentInfo → ℕ → Outcome Bytes
get_piece_hash t piece =
    check (leb (20 * (piece + 1)) (length t.pieces)) >> ok (take 20 (drop (20 * piece) t.pieces))
