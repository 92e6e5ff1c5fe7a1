-- ===== src/Cache/Valid.antt =====
-- The invariant of the cache, and that a call keeps it: the keys of the map are the indices of the
-- list, each once, and there are no more than the size allows.
use torrent_client.Common.{
  ℕ, ◌+◌, ◌≤◌, ◌<◌, ◌≡◌, refl, sym, ap, ◌∙◌, inl, inr, true, false, not, ◌&&◌, ◌||◌, some, List, [],
  ◌∷◌, ◌++◌, arith, ◌==◌, if◌then◌else◌, Bool-cases, Bytes, length, drop, length-append,
}
use torrent_client.Cache.{ok, push_back, make_room, pick, CachedPiece, PieceCache, contains, delete}

abbrev pub indices : List CachedPiece → List ℕ
indices [] = []
indices (e ∷ l) = e.index ∷ indices l

-- no number twice
abbrev pub Nodup : List ℕ → Type 0
Nodup [] = Unit
Nodup (k ∷ ks) = (contains k ks ≡ false) × Nodup ks

pub record IsValid (c : PieceCache) : Type 0 where
  pub keys : (k : ℕ) → contains k c.pieces ≡ contains k (indices c.list)
  pub pieces_nodup : Nodup c.pieces
  pub list_nodup : Nodup (indices c.list)
  pub same_length : length c.pieces ≡ length c.list
  pub bounded : length c.pieces ≤ c.cache_size

pub contains-append :
    (k : ℕ) (xs ys : List ℕ) → contains k (xs ++ ys) ≡ (contains k xs || contains k ys)
unfolding contains
contains-append k [] ys = refl
contains-append k (x ∷ xs) ys = ground (arith, contains-append k xs ys)

indices-append :
    (l : List CachedPiece) (e : CachedPiece) → indices (l ++ (e ∷ [])) ≡ indices l ++ (e.index ∷ [])
indices-append [] e = refl
indices-append (x ∷ l) e = ap (λ t. x.index ∷ t) (indices-append l e)

Nodup-concat : (ks : List ℕ) (k : ℕ) → Nodup ks → contains k ks ≡ false → Nodup (ks ++ (k ∷ []))
unfolding contains
Nodup-concat [] k d h = (refl, tt)
Nodup-concat (j ∷ ks) k d h = ground (arith, contains-append j ks (k ∷ []), Nodup-concat ks k)

-- what a removal leaves
contains-delete :
    (j k : ℕ) (ks : List ℕ) → Nodup ks → contains k (delete j ks) ≡ (contains k ks && not (k == j))
unfolding contains delete
contains-delete j k [] d = refl
contains-delete j k (i ∷ ks) d = ground (arith, contains-delete j k ks)

Nodup-delete : (j : ℕ) (ks : List ℕ) → Nodup ks → Nodup (delete j ks)
unfolding delete
Nodup-delete j [] d = tt
Nodup-delete j (i ∷ ks) d = ground (arith, contains-delete j i ks, Nodup-delete j ks)

length-delete : (j : ℕ) (ks : List ℕ) → contains j ks ≡ true → length (delete j ks) + 1 ≡ length ks
unfolding contains delete
length-delete j [] h = cc
length-delete j (i ∷ ks) h = ground (arith, length-delete j ks)

-- `pick k l` takes the entry `e` with index `k` out of `l`, and leaves `r`.
pub record Picks (k : ℕ) (l : List CachedPiece) : Type 0 where
  pub entry : CachedPiece
  pub others : List CachedPiece
  pub picks : pick k l ≡ some (entry, others)
  pub index_is : entry.index ≡ k
  pub splits : (j : ℕ) → contains j (indices l) ≡ (k == j || contains j (indices others))
  pub others_nodup : Nodup (indices others)
  pub gone : contains k (indices others) ≡ false
  pub shorter : length l ≡ length others + 1

pick-Picks :
    (k : ℕ) (l : List CachedPiece) → Nodup (indices l) → contains k (indices l) ≡ true → Picks k l
unfolding contains pick
pick-Picks k [] d h = cc
pick-Picks k (e ∷ l) d h = elim (Bool-cases (e.index == k)) [
  | inl here ↦ record {
    entry = e;
    others = l;
    picks = rw here;
    index_is = ground arith;
    splits = λ j. ground arith;
    others_nodup = d.1;
    gone = ground arith;
    shorter = omega arith;
  }
  | inr later ↦
      let p = pick-Picks k l d.1 (ground arith) in
      record {
        entry = p.entry;
        others = e ∷ p.others;
        picks = rw (later, p.picks);
        index_is = p.index_is;
        splits = λ j. ground (arith, p.splits j);
        others_nodup = (ground (arith, p.splits e.index), p.others_nodup);
        gone = ground (arith, p.gone);
        shorter = omega (arith, p.shorter);
      }
]

pub valid-Picks : (c : PieceCache) (k : ℕ) → IsValid c → contains k c.pieces ≡ true → Picks k c.list
valid-Picks c k v h = pick-Picks k c.list v.list_nodup (sym (v.keys k) ∙ h)

-- A hit moves the entry to the back.
pub move-IsValid :
    (c : PieceCache) (k : ℕ) (v : IsValid c) (p : Picks k c.list)
    → IsValid (record c { list = p.others ++ (p.entry ∷ []) })
unfolding contains
move-IsValid c k v p = record {
  keys = λ j.
      rw
        (indices-append p.others p.entry, contains-append j (indices p.others) (p.entry.index ∷ []))
        (ground (arith, v.keys j, p.splits j, p.index_is));
  pieces_nodup = v.pieces_nodup;
  list_nodup =
      rw (indices-append p.others p.entry)
        (Nodup-concat (indices p.others) p.entry.index p.others_nodup (rw (p.index_is) p.gone));
  same_length = omega (arith, v.same_length, p.shorter, length-append p.others (p.entry ∷ []));
  bounded = v.bounded;
}

-- The front entry goes, with its key.
evict-IsValid :
    (c : PieceCache) (x : CachedPiece) (r : List CachedPiece)
    → c.list ≡ x ∷ r
    → IsValid c
    → IsValid (record c { pieces = delete x.index c.pieces; list = r })
      × (length (delete x.index c.pieces) + 1 ≡ length c.pieces)
unfolding contains
evict-IsValid c x r e v =
    let d : Nodup (indices (x ∷ r)) = rw e at v.list_nodup in
    let keys : (j : ℕ) → contains j c.pieces ≡ contains j (indices (x ∷ r)) =
      λ j. v.keys j ∙ ap (λ t. contains j (indices t)) e in
    let less = length-delete x.index c.pieces (ground (arith, keys x.index)) in
    (
      record {
        keys = λ j. rw (contains-delete x.index j c.pieces v.pieces_nodup) (ground (arith, keys j));
        pieces_nodup = Nodup-delete x.index c.pieces v.pieces_nodup;
        list_nodup = d.1;
        same_length = omega (arith, less, v.same_length, ap length e);
        bounded = omega (arith, less, v.bounded);
      },
      less,
    )

-- After a call of `make_room` there is room for one more, and nothing new.
pub record Roomy (k : ℕ) (c c' : PieceCache) : Type 0 where
  pub makes : make_room c ≡ ok c'
  pub valid : IsValid c'
  pub room : length c'.pieces < c'.cache_size
  pub missing : contains k c'.pieces ≡ false
  pub same_size : c'.cache_size ≡ c.cache_size
  pub same_info : c'.info ≡ c.info
  pub list_is : c'.list ≡ (if length c.pieces == c.cache_size then drop 1 c.list else c.list)

evict-Roomy :
    (c : PieceCache) (k : ℕ) (l : List CachedPiece)
    → c.list ≡ l
    → IsValid c
    → 0 < c.cache_size
    → contains k c.pieces ≡ false
    → (length c.pieces == c.cache_size) ≡ true
    → (c' : PieceCache) × Roomy k c c'
unfolding make_room
evict-Roomy c k [] e v h m full =
    absurd (let n = ap length e in let w = v.same_length in ground arith)
evict-Roomy c k (x ∷ r) e v h m full =
    let (valid, less) = evict-IsValid c x r e v in
    (
      record c { pieces = delete x.index c.pieces; list = r },
      record {
        makes = rw (full, e);
        valid = valid;
        room = ground (arith, v.bounded);
        missing = rw (contains-delete x.index k c.pieces v.pieces_nodup) (ground arith);
        same_size = refl;
        same_info = refl;
        list_is = rw (full, e);
      },
    )

pub make_room-Roomy :
    (c : PieceCache) (k : ℕ)
    → IsValid c
    → 0 < c.cache_size
    → contains k c.pieces ≡ false
    → (c' : PieceCache) × Roomy k c c'
unfolding make_room
make_room-Roomy c k v h m = elim (Bool-cases (length c.pieces == c.cache_size)) [
  | inl full ↦ evict-Roomy c k c.list refl v h m full
  | inr room ↦ (
    c,
    record {
      makes = rw room;
      valid = v;
      room = ground (arith, v.bounded);
      missing = m;
      same_size = refl;
      same_info = refl;
      list_is = rw room;
    },
  )
]

-- A new entry goes to the back.
pub push_back-IsValid :
    (c : PieceCache) (k : ℕ) (p : Bytes)
    → IsValid c
    → length c.pieces < c.cache_size
    → contains k c.pieces ≡ false
    → IsValid (push_back k p c)
unfolding push_back contains
push_back-IsValid c k p v room m =
    let e : CachedPiece = record { index = k; piece = p } in
    record {
      keys = λ j. rw (
        indices-append c.list e,
        contains-append j c.pieces (k ∷ []),
        contains-append j (indices c.list) (k ∷ []),
        v.keys j,
      );
      pieces_nodup = Nodup-concat c.pieces k v.pieces_nodup m;
      list_nodup =
          rw (indices-append c.list e)
            (Nodup-concat (indices c.list) k v.list_nodup (sym (v.keys k) ∙ m));
      same_length =
          omega
            (arith, v.same_length, length-append c.pieces (k ∷ []), length-append c.list (e ∷ []));
      bounded = omega (arith, length-append c.pieces (k ∷ []));
    }
