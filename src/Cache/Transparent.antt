-- ===== src/Cache/Transparent.antt =====
-- What a call of the cache returns (pkg/torrent/cache.go).
use torrent_client.Common.{
  ℕ, ◌+◌, ◌*◌, ◌≤◌, ◌<◌, ◌≡◌, refl, sym, ap, ◌∙◌, inl, inr, Bool, true, false, Option, none, some,
  List, [], ◌∷◌, ◌++◌, arith, ◌==◌, if◌then◌else◌, Bool-cases, Bytes, length, take, drop, replicate,
  All, All-append, length-take, length-drop, length-replicate,
}
use torrent_client.Bitfield.{copy_into}
use torrent_client.Cache.{
  CachedPiece, PieceCache, contains, pick, push_back, piece_size, load_piece, get_piece,
}
use torrent_client.Cache.Valid.{
  IsValid, valid-Picks, move-IsValid, make_room-Roomy, push_back-IsValid,
}
use torrent_client.Common.Outcome.{Outcome, ok}
use torrent_client.Storage.{Disk, get_piece_from_file}
use torrent_client.Storage.Layout.{stream, HasFiles, Distinct, length-stream}
use torrent_client.Storage.Read.{get_piece_from_file-stream}
use torrent_client.Torrent.{TorrentFile, TorrentInfo, get_num_pieces, get_total_length, sum_lengths}
use torrent_client.Torrent.Pieces.{get_num_pieces-lower}

pub copy_into-whole : (dst src : Bytes) → length dst ≡ length src → copy_into dst src ≡ src
unfolding copy_into
copy_into-whole [] [] h = refl
copy_into-whole [] (y ∷ src) h = absurd (omega arith)
copy_into-whole (x ∷ dst) [] h = absurd (omega arith)
copy_into-whole (x ∷ dst) (y ∷ src) h = ap (◌∷◌ y) (copy_into-whole dst src (omega arith))

module _ (P : CachedPiece → Type 0) where
  abbrev AllPicked : Option (CachedPiece × List CachedPiece) → Type 0
  AllPicked none = Unit
  AllPicked (some (e, r)) = P e × All P r

  All-pick : (k : ℕ) (l : List CachedPiece) → All P l → AllPicked (pick k l)
  unfolding pick
  All-pick k [] h = tt
  All-pick k (x ∷ l) h = elim (Bool-cases (x.index == k)) [
    | inl here ↦ rw here (h.0, h.1)
    | inr later ↦ rw later (behind (pick k l) (All-pick k l h.1))
  ]
    where
      behind :
          (o : Option (CachedPiece × List CachedPiece))
          → AllPicked o
          → AllPicked (elim o [ none ↦ none | some (f, r) ↦ some (f, x ∷ r) ])
      behind none t = tt
      behind (some (f, r)) t = (t.0, (h.0, t.1))

-- A piece lies within the torrent.
pub piece_size-le :
    (ti : TorrentInfo) (i : ℕ)
    → 0 < ti.piece_length
    → i < get_num_pieces ti
    → i * ti.piece_length + piece_size ti i ≤ get_total_length ti
unfolding piece_size
piece_size-le ti i h lt = elim (Bool-cases (i + 1 == get_num_pieces ti)) [
  | inl last ↦ rw last (omega (arith, get_num_pieces-lower ti i h lt))
  | inr more ↦ rw more (let next = get_num_pieces-lower ti (i + 1) h (ground arith) in omega arith)
]

module _ (place : TorrentFile → ℕ) (d : Disk) where
  -- what the files hold of piece `i`
  unfoldable pub expected : TorrentInfo → ℕ → Bytes
  expected ti i = take (piece_size ti i) (drop (i * ti.piece_length) (stream place d ti.files))

  -- Every cached piece is what the files hold.
  abbrev pub Coherent : TorrentInfo → List CachedPiece → Type 0
  Coherent ti = All (λ e. e.piece ≡ expected ti e.index)

  -- What a call comes back with: piece `i` as the files hold it, and the cache with that piece at
  -- its back, still valid and coherent.
  pub record Serves (c : PieceCache) (i : ℕ) (r : Outcome (Bytes × PieceCache)) : Type 0 where
    pub after : PieceCache
    pub answers : r ≡ ok (expected c.info i, after)
    pub valid : IsValid after
    pub coherent : Coherent after.info after.list
    pub same_info : after.info ≡ c.info
    pub same_size : after.cache_size ≡ c.cache_size
    pub before : List CachedPiece
    pub newest : after.list ≡ before ++ ((record { index = i; piece = expected c.info i }) ∷ [])

  hit-Serves :
      (fuel : ℕ) (c : PieceCache) (i : ℕ)
      → IsValid c
      → Coherent c.info c.list
      → contains i c.pieces ≡ true
      → Serves c i (get_piece place fuel d c i)
  unfolding get_piece
  hit-Serves fuel c i v co h =
      let p = valid-Picks c i v h in
      let (fresh, others) = rw (p.picks) at (All-pick _ i c.list co) in
      let fresh_i : p.entry.piece ≡ expected c.info i = fresh ∙ ap (expected c.info) p.index_is in
      record {
        after = record c { list = p.others ++ (p.entry ∷ []) };
        answers =
            rw (h, p.picks)
              (ap (λ t. ok (t, record c { list = p.others ++ (p.entry ∷ []) })) fresh_i);
        valid = move-IsValid c i v p;
        coherent = All-append _ p.others (p.entry ∷ []) others (fresh, tt);
        same_info = refl;
        same_size = refl;
        before = p.others;
        newest =
            ap (λ t. p.others ++ (t ∷ []))
              (λ j. record { index = p.index_is j; piece = fresh_i j });
      }

  -- the first entry of a full cache is dropped
  drop-Coherent :
      (ti : TorrentInfo) (b : Bool) (l : List CachedPiece)
      → Coherent ti l
      → Coherent ti (if b then drop 1 l else l)
  drop-Coherent ti true [] h = tt
  drop-Coherent ti true (x ∷ l) h = h.1
  drop-Coherent ti false l h = h

  module _ (fuel : ℕ) (c : PieceCache) (i : ℕ) (v : IsValid c) (co : Coherent c.info c.list)
      (sized : 0 < c.cache_size) (cut : 0 < c.info.piece_length)
      (multi : get_total_length c.info ≡ sum_lengths c.info.files)
      (within : i < get_num_pieces c.info) (enough : piece_size c.info i ≤ fuel)
      (dis : Distinct place c.info.files) (has : HasFiles place d c.info.files) where
    fits : i * c.info.piece_length + piece_size c.info i ≤ sum_lengths c.info.files
    fits = rw (← multi) (piece_size-le c.info i cut within)

    reads :
        get_piece_from_file place c.info.files fuel d c.info.piece_length i (piece_size c.info i)
        ≡ ok (expected c.info i, none)
    unfolding expected
    reads =
        get_piece_from_file-stream place c.info.files fuel d c.info.piece_length i
          (piece_size c.info i) enough fits dis has

    length-expected : length (expected c.info i) ≡ piece_size c.info i
    unfolding expected
    length-expected =
        let text = stream place d c.info.files in
        omega (
          arith,
          fits,
          length-take (piece_size c.info i) (drop (i * c.info.piece_length) text),
          length-drop (i * c.info.piece_length) text,
          length-stream place d c.info.files has,
        )

    fills : copy_into (replicate (piece_size c.info i) 0) (expected c.info i) ≡ expected c.info i
    fills =
        copy_into-whole _ (expected c.info i)
          (length-replicate (piece_size c.info i) 0 ∙ sym length-expected)

    miss-Serves : contains i c.pieces ≡ false → Serves c i (get_piece place fuel d c i)
    unfolding get_piece load_piece
    miss-Serves m =
        let (c', r) = make_room-Roomy c i v sized m in
        let kept : Coherent c.info c'.list =
          rw (r.list_is) (drop-Coherent c.info (length c.pieces == c.cache_size) c.list co) in
        record {
          after = push_back i (expected c.info i) c';
          answers = rw (m, reads, fills, r.makes);
          valid = push_back-IsValid c' i (expected c.info i) r.valid r.room r.missing;
          coherent = unfold push_back in rw (r.same_info) (All-append _ c'.list _ kept (refl, tt));
          same_info = unfold push_back in r.same_info;
          same_size = unfold push_back in r.same_size;
          before = c'.list;
          newest = unfold push_back in refl;
        }

    -- On a valid and coherent cache of positive size, for a torrent of several files with a
    -- positive piece length, whose files are on the disk with their lengths and at different
    -- places, `GetPiece` of a piece of the torrent does not panic, and comes to an end where the
    -- fuel is at least the length of the piece. It returns that piece as the files hold it. The
    -- cache stays valid and coherent, keeps its size, and has the piece at its back.
    pub get_piece-Serves : Serves c i (get_piece place fuel d c i)
    get_piece-Serves = elim (Bool-cases (contains i c.pieces)) [
      | inl hit ↦ hit-Serves fuel c i v co hit
      | inr miss ↦ miss-Serves miss
    ]
