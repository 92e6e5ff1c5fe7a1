-- ===== src/Session/Startup/Directories/Entries.antt =====
-- One entry more in a tree of files and directories (pkg/util/file.go).
use torrent_client.Common.{
  ◌≡◌, refl, sym, ◌∙◌, ◌⊎◌, inl, inr, true, false, Option, none, some, List, [], ◌∷◌, arith,
  Bool-cases, Bytes,
}
use torrent_client.Bencode.Value.{eq_bytes}
use torrent_client.Bencode.Encode.Sorting.{eq_bytes_iff}
use torrent_client.Common.Outcome.{Outcome, ok}
use torrent_client.Session.Startup.Directories.{
  stat_of, Entry, Stat, dir, Tree, eq_parts, put_entry, parent, stat, does_exist, mkdir, create_dir,
  need_dir,
}

pub eq_parts_is : (p q : List Bytes) → eq_parts p q ≡ true → p ≡ q
unfolding eq_parts
eq_parts_is [] [] h = refl
eq_parts_is [] (b ∷ q) h = absurd (ground arith)
eq_parts_is (a ∷ p) [] h = absurd (ground arith)
eq_parts_is (a ∷ p) (b ∷ q) h =
    let head : eq_bytes a b ≡ true = ground arith in
    let tail : eq_parts p q ≡ true = ground arith in
    let same = (eq_bytes_iff a b).0 head in let rest = eq_parts_is p q tail in λ i. same i ∷ rest i

eq_parts_refl : (p : List Bytes) → eq_parts p p ≡ true
unfolding eq_parts
eq_parts_refl [] = refl
eq_parts_refl (a ∷ p) = rw ((eq_bytes_iff a a).1 refl) (eq_parts_refl p)

-- Each entry of the first tree is in the second.
abbrev pub Grows : Tree → Tree → Type 0
Grows t t' = (q : List Bytes) (e : Entry) → t q ≡ some e → t' q ≡ some e

pub put_entry-Grows :
    (t : Tree) (p : List Bytes) (e : Entry) → t p ≡ none → Grows t (put_entry t p (some e))
unfolding put_entry
put_entry-Grows t p e free q f h = elim (Bool-cases (eq_parts p q)) [
  | inl same ↦ absurd (clash (sym (rw (eq_parts_is p q same) at free) ∙ h))
  | inr differs ↦ rw differs h
]
  where
    clash : {A : Type 0} {a : A} → ◌≡◌ {A = Option A} none (some a) → ⊥
    clash e = cc

pub put_entry_at : (t : Tree) (p : List Bytes) (e : Entry) → put_entry t p (some e) p ≡ some e
unfolding put_entry
put_entry_at t p e = rw (eq_parts_refl p)

put_entry_ne :
    (t : Tree) (p q : List Bytes) (o : Option Entry)
    → eq_parts p q ≡ false
    → put_entry t p o q ≡ t q
unfolding put_entry
put_entry_ne t p q o h = rw h

-- Nothing stands there, or a directory.
abbrev pub IsFree : Tree → List Bytes → Type 0
IsFree t p = (t p ≡ none) ⊎ (t p ≡ some dir)

-- A directory stands there now.
pub record Stands (t : Tree) (p : List Bytes) (r : Outcome Tree) : Type 0 where
  pub tree : Tree
  pub ends : r ≡ ok tree
  pub grows : Grows t tree
  pub stands : tree p ≡ some dir
  pub others : (q : List Bytes) → eq_parts p q ≡ false → tree q ≡ t q

-- `CreateDir` in a directory
pub create_dir-Stands :
    (t : Tree) (p : List Bytes)
    → stat t (parent p) ≡ Stat.found dir
    → stat t p ≡ stat_of (t p)
    → IsFree t p
    → Stands t p (create_dir t p)
unfolding create_dir mkdir
create_dir-Stands t p above here (inl free) = record {
  tree = put_entry t p (some dir);
  ends = rw (create_dir, here, free, mkdir, above, free);
  grows = put_entry-Grows t p dir free;
  stands = put_entry_at t p dir;
  others = λ q h. put_entry_ne t p q (some dir) h;
}
create_dir-Stands t p above here (inr there) = record {
  tree = t;
  ends = rw (create_dir, here, there);
  grows = λ q f k. k;
  stands = there;
  others = λ q h. refl;
}

pub need_dir-Stands :
    (t : Tree) (p : List Bytes)
    → stat t (parent p) ≡ Stat.found dir
    → stat t p ≡ stat_of (t p)
    → IsFree t p
    → Stands t p (need_dir t p)
unfolding need_dir does_exist
need_dir-Stands t p above here (inl free) =
    let made = create_dir-Stands t p above here (inl free) in
    record {
      tree = made.tree;
      ends = rw (need_dir, does_exist, here, free) (made.ends);
      grows = made.grows;
      stands = made.stands;
      others = made.others;
    }
need_dir-Stands t p above here (inr there) = record {
  tree = t;
  ends = rw (need_dir, does_exist, here, there);
  grows = λ q f k. k;
  stands = there;
  others = λ q h. refl;
}
