-- ===== src/Session/Startup/Directories/Laws.antt =====
-- Where the directories of a session come to stand (pkg/util/file.go).
use torrent_client.Common.{
  ◌≡◌, refl, sym, ap, ◌∙◌, inl, inr, true, false, Option, none, some, List, [], ◌∷◌, map, arith,
  Bool-cases, Option-cases, Bytes, All,
}
use torrent_client.Common.Outcome.{Outcome, ok}
use torrent_client.Session.Startup.Directories.{
  stat_of, Entry, Stat, file, dir, Tree, eq_parts, put_entry, parent, walk, stat, does_exist,
  create_dir, create, need_dir, need_file, need_files, make_tree,
}
use torrent_client.Session.Startup.Directories.Entries.{
  eq_parts_is, Grows, put_entry-Grows, put_entry_at, IsFree, create_dir-Stands, need_dir-Stands,
}

-- The entry, or a file where there is none.
abbrev pub or_file : Option Entry → Entry
or_file none = file
or_file (some e) = e

put_entry-fills :
    (t : Tree) (p : List Bytes)
    → t p ≡ none
    → (q : List Bytes) → or_file (put_entry t p (some file) q) ≡ or_file (t q)
unfolding put_entry
put_entry-fills t p free q = elim (Bool-cases (eq_parts p q)) [
  | inl same ↦ let e : t q ≡ none = rw (eq_parts_is p q same) at free in rw (same, e)
  | inr differs ↦ rw differs
]

module _ (data_dir name : Bytes) where
  -- The directory with the torrent's files is there.
  pub record HasTop (t : Tree) : Type 0 where
    pub root : t [] ≡ some dir
    pub middle : t (data_dir ∷ []) ≡ some dir
    pub top : t (data_dir ∷ name ∷ []) ≡ some dir

  HasTop-Grows : (t t' : Tree) → HasTop t → Grows t t' → HasTop t'
  HasTop-Grows t t' h g = record {
    root = g _ dir h.root;
    middle = g _ dir h.middle;
    top = g _ dir h.top;
  }

  -- What the loop over the files leaves: what is new is a file.
  record Fills (t : Tree) (names : List Bytes) (r : Outcome Tree) : Type 0 where
    tree : Tree
    ends : r ≡ ok tree
    grows : Grows t tree
    fills : (q : List Bytes) → or_file (tree q) ≡ or_file (t q)
    there :
        All
          (λ x. tree (data_dir ∷ name ∷ x ∷ []) ≡ some (or_file (t (data_dir ∷ name ∷ x ∷ []))))
          names

  -- What is there when the directories and the files have been made: the two directories, at the
  -- path of each file what was there before, and a file where nothing was, and all else that was
  -- there.
  pub record Made (t : Tree) (names : List Bytes) (r : Outcome Tree) : Type 0 where
    pub tree : Tree
    pub ends : r ≡ ok tree
    pub grows : Grows t tree
    pub has : HasTop tree
    pub there :
        All
          (λ x. tree (data_dir ∷ name ∷ x ∷ []) ≡ some (or_file (t (data_dir ∷ name ∷ x ∷ []))))
          names

  stat_top : (t : Tree) → HasTop t → stat t (data_dir ∷ name ∷ []) ≡ Stat.found dir
  unfolding stat walk
  stat_top t h = rw (walk, h.root, walk, h.middle, walk, h.top)

  stat_in_top :
      (t : Tree) (x : Bytes)
      → HasTop t
      → stat t (data_dir ∷ name ∷ x ∷ []) ≡ stat_of (t (data_dir ∷ name ∷ x ∷ []))
  unfolding stat walk
  stat_in_top t x h = rw (walk, h.root, walk, h.middle, walk, h.top)

  exists :
      (t : Tree) (x : Bytes) (e : Entry)
      → HasTop t
      → t (data_dir ∷ name ∷ x ∷ []) ≡ some e
      → does_exist t (data_dir ∷ name ∷ x ∷ []) ≡ true
  unfolding does_exist
  exists t x e h there = rw (does_exist, stat_in_top t x h, there)

  need_file-missing :
      (t : Tree) (x : Bytes)
      → HasTop t
      → t (data_dir ∷ name ∷ x ∷ []) ≡ none
      → need_file t (data_dir ∷ name ∷ x ∷ [])
        ≡ ok (put_entry t (data_dir ∷ name ∷ x ∷ []) (some file))
  unfolding need_file need_dir does_exist create parent
  need_file-missing t x h free =
      let p = data_dir ∷ name ∷ x ∷ [] in
      let m : does_exist t p ≡ false = rw (does_exist, stat_in_top t x h, free) in
      let top_there : does_exist t (data_dir ∷ name ∷ []) ≡ true = rw (does_exist, stat_top t h) in
      rw (need_file, m, need_dir, top_there, create, stat_top t h, free)

  -- what is the same up to new files
  moved :
      (t t' tree : Tree)
      → ((q : List Bytes) → or_file (t q) ≡ or_file (t' q))
      → (names : List Bytes)
      → All
          (λ x. tree (data_dir ∷ name ∷ x ∷ []) ≡ some (or_file (t (data_dir ∷ name ∷ x ∷ []))))
          names
      → All
          (λ x. tree (data_dir ∷ name ∷ x ∷ []) ≡ some (or_file (t' (data_dir ∷ name ∷ x ∷ []))))
          names
  moved t t' tree same [] h = tt
  moved t t' tree same (x ∷ xs) h =
      (h.0 ∙ ap some (same (data_dir ∷ name ∷ x ∷ [])), moved t t' tree same xs h.1)

  need_file-Fills :
      (t : Tree) (x : Bytes) → HasTop t → Fills t (x ∷ []) (need_file t (data_dir ∷ name ∷ x ∷ []))
  unfolding need_file
  need_file-Fills t x h =
      let p = data_dir ∷ name ∷ x ∷ [] in
      elim (Option-cases (t p)) [
        | inr (e, there) ↦
            let is = exists t x e h there in
            record {
              tree = t;
              ends = rw is;
              grows = λ q f k. k;
              fills = λ q. refl;
              there = (rw there, tt);
            }
        | inl free ↦ record {
          tree = put_entry t p (some file);
          ends = need_file-missing t x h free;
          grows = put_entry-Grows t p file free;
          fills = put_entry-fills t p free;
          there = (put_entry_at t p file ∙ ap (λ o. some (or_file o)) (sym free), tt);
        }
      ]

  need_files-Fills :
      (names : List Bytes) (t : Tree)
      → HasTop t
      → Fills t names (need_files (data_dir ∷ name ∷ []) t (map (λ x. x ∷ []) names))
  unfolding need_files
  need_files-Fills [] t h = record {
    tree = t;
    ends = refl;
    grows = λ q f k. k;
    fills = λ q. refl;
    there = tt;
  }
  need_files-Fills (x ∷ xs) t h =
      let one = need_file-Fills t x h in
      let rest = need_files-Fills xs one.tree (HasTop-Grows t one.tree h one.grows) in
      record {
        tree = rest.tree;
        ends = rw (one.ends) (rest.ends);
        grows = λ q f k. rest.grows q f (one.grows q f k);
        fills = λ q. rest.fills q ∙ one.fills q;
        there = (rest.grows _ _ one.there.0, moved one.tree t rest.tree one.fills xs rest.there);
      }

-- Before the files: the two directories are there, and other paths are as they were.
pub record Begins (data_dir name : Bytes) (t : Tree) : Type 0 where
  pub after_data : Tree
  pub after_top : Tree
  pub makes_data : create_dir t (data_dir ∷ []) ≡ ok after_data
  pub makes_top : need_dir after_data (data_dir ∷ name ∷ []) ≡ ok after_top
  pub grows : Grows t after_top
  pub has : HasTop data_dir name after_top
  pub below :
      (a : Bytes) (p : List Bytes)
      → after_top (data_dir ∷ name ∷ a ∷ p) ≡ t (data_dir ∷ name ∷ a ∷ p)

pub begin :
    (data_dir name : Bytes) (t : Tree)
    → t [] ≡ some dir
    → IsFree t (data_dir ∷ [])
    → IsFree t (data_dir ∷ name ∷ [])
    → Begins data_dir name t
unfolding parent stat walk
begin data_dir name t root data_free top_free =
    let one = create_dir-Stands t (data_dir ∷ []) (rw (walk, root)) (rw (walk, root)) data_free in
    let root' = one.grows [] dir root in
    let shorter : (q : Bytes) (p : List Bytes)
        → eq_parts (data_dir ∷ []) (data_dir ∷ q ∷ p) ≡ false =
      λ q p. unfold eq_parts in ground arith in
    let same = one.others (data_dir ∷ name ∷ []) (shorter name []) in
    let two =
      need_dir-Stands one.tree (data_dir ∷ name ∷ []) (rw (walk, root', walk, one.stands))
        (rw (walk, root', walk, one.stands)) (rw same top_free) in
    record {
      after_data = one.tree;
      after_top = two.tree;
      makes_data = one.ends;
      makes_top = two.ends;
      grows = λ q f k. two.grows q f (one.grows q f k);
      has = record {
        root = two.grows [] dir root';
        middle = two.grows _ dir one.stands;
        top = two.stands;
      };
      below = λ a p.
          two.others (data_dir ∷ name ∷ a ∷ p) (unfold eq_parts in ground arith)
          ∙ one.others (data_dir ∷ name ∷ a ∷ p) (shorter name (a ∷ p));
    }

begun :
    (data_dir name : Bytes) (t : Tree) (b : Begins data_dir name t) (tree : Tree)
    (names : List Bytes)
    → All
        (λ x.
          tree (data_dir ∷ name ∷ x ∷ []) ≡ some (or_file (b.after_top (data_dir ∷ name ∷ x ∷ []))))
        names
    → All
        (λ x. tree (data_dir ∷ name ∷ x ∷ []) ≡ some (or_file (t (data_dir ∷ name ∷ x ∷ []))))
        names
begun data_dir name t b tree [] h = tt
begun data_dir name t b tree (x ∷ xs) h =
    (h.0 ∙ ap (λ o. some (or_file o)) (b.below x []), begun data_dir name t b tree xs h.1)

-- For a torrent whose files stand in the torrent's own directory, where nothing but a directory
-- stands at the directory with the data and at that of the torrent: `initialize` ends without a
-- panic, the two directories are there, a file stands at the path of each of the torrent's files
-- where nothing was, what stood there stays, and so does each other entry.
pub make_tree-Made :
    (data_dir name : Bytes) (t : Tree) (names : List Bytes)
    → t [] ≡ some dir
    → IsFree t (data_dir ∷ [])
    → IsFree t (data_dir ∷ name ∷ [])
    → Made data_dir name t names (make_tree data_dir name t (map (λ x. x ∷ []) names))
unfolding make_tree
make_tree-Made data_dir name t names root data_free top_free =
    let b = begin data_dir name t root data_free top_free in
    let files = need_files-Fills data_dir name names b.after_top b.has in
    record {
      tree = files.tree;
      ends = rw (b.makes_data, b.makes_top) (files.ends);
      grows = λ q f k. files.grows q f (b.grows q f k);
      has = HasTop-Grows data_dir name b.after_top files.tree b.has files.grows;
      there = begun data_dir name t b files.tree names files.there;
    }
