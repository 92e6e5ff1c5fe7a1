-- ===== src/Cache.antt =====
-- pkg/torrent/cache.go: `PieceCache`, the most recently used pieces of a torrent. The keys of the
-- map `pieces` are a list of numbers; the list element that the map holds for a key is the one
-- with that index. One call is one step here, as if calls came one at a time: `GetPiece` takes
-- `pieceLock` on a miss only, behind its look at the map.
pub mod Valid
pub mod Transparent
use torrent_client.Common.{
  ℕ, ◌+◌, ◌-◌, ◌*◌, Bool, false, ◌||◌, Option, none, some, List, [], ◌∷◌, ◌++◌, leb, ◌==◌,
  if◌then◌else◌, Bytes, length, take, drop, replicate,
}
use torrent_client.Bitfield.{copy_into}
use torrent_client.Common.Outcome.{Outcome, ok, panic, check, ◌>>=◌, ◌>>◌}
use torrent_client.Torrent.{TorrentFile, TorrentInfo, get_num_pieces, get_total_length}
use torrent_client.Storage.{Disk, get_piece_from_file}

pub record CachedPiece : Type 0 where
  pub index : ℕ
  pub piece : Bytes

pub record PieceCache : Type 0 where
  pub pieces : List ℕ
  pub list : List CachedPiece
  pub cache_size : ℕ
  pub info : TorrentInfo

unfoldable pub new_piece_cache : TorrentInfo → PieceCache
new_piece_cache ti = record { pieces = []; list = []; cache_size = 5; info = ti }

-- `_, ok := c.pieces[index]`
unfoldable pub contains : ℕ → List ℕ → Bool
contains k [] = false
contains k (j ∷ ks) = j == k || contains k ks

-- `delete(c.pieces, k)`
unfoldable pub delete : ℕ → List ℕ → List ℕ
delete k [] = []
delete k (j ∷ ks) = if j == k then ks else j ∷ delete k ks

-- `c.list.MoveToBack(p)` for the element with the index: that element, and the others
unfoldable pub pick : ℕ → List CachedPiece → Option (CachedPiece × List CachedPiece)
pick k [] = none
pick k (e ∷ l) =
    if e.index == k
    then some (e, l)
    else elim (pick k l) [ none ↦ none | some (f, r) ↦ some (f, e ∷ r) ]

-- The length of a piece: the last one can be shorter.
unfoldable pub piece_size : TorrentInfo → ℕ → ℕ
piece_size ti index =
    if index + 1 == get_num_pieces ti
    then get_total_length ti - index * ti.piece_length
    else ti.piece_length

-- The front of a full cache goes.
unfoldable pub make_room : PieceCache → Outcome PieceCache
unfolding delete
make_room c =
    if length c.pieces == c.cache_size
    then elim c.list [
      | [] ↦ panic
      | e ∷ l ↦ ok (record c { pieces = delete e.index c.pieces; list = l })
    ]
    else ok c

-- `c.list.PushBack` and `c.pieces[index] = el`
unfoldable pub push_back : ℕ → Bytes → PieceCache → PieceCache
push_back index p c = record c {
  pieces = c.pieces ++ (index ∷ []);
  list = c.list ++ ((record { index = index; piece = p }) ∷ []);
}

module _ (place : TorrentFile → ℕ) (fuel : ℕ) (disk : Disk) where
  -- the branch of `GetPiece` for a piece that is not in the cache; an error of the read is dropped
  unfoldable pub load_piece : PieceCache → ℕ → Outcome (Bytes × PieceCache)
  unfolding copy_into piece_size make_room push_back
  load_piece c index = do
    let n = piece_size c.info index
    r ← get_piece_from_file place c.info.files fuel disk c.info.piece_length index n
    let p = copy_into (replicate n 0) r.0
    c' ← make_room c
    ok (p, push_back index p c')

  unfoldable pub get_piece : PieceCache → ℕ → Outcome (Bytes × PieceCache)
  unfolding contains pick load_piece
  get_piece c index =
      if contains index c.pieces
      then elim (pick index c.list) [
        | none ↦ panic
        | some (e, l) ↦ ok (e.piece, record c { list = l ++ (e ∷ []) })
      ]
      else load_piece c index

  -- `piece[begin : begin+length]`; a piece has no spare capacity.
  unfoldable pub get_piece_block : PieceCache → (index begin len : ℕ) → Outcome (Bytes × PieceCache)
  unfolding get_piece
  get_piece_block c index begin len = do
    r ← get_piece c index
    check (leb (begin + len) (length r.0))
    ok (take len (drop begin r.0), r.1)
