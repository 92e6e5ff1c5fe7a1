-- ===== src/Storage/Splice.antt =====
-- A piece of a text written over another one, in a text that stands for all the files of a
-- torrent in their order.
use torrent_client.Common.{
  ℕ, zero, suc, ◌+◌, ◌-◌, ◌≤◌, ◌≡◌, refl, ap, [], ◌∷◌, ◌++◌, append_assoc, append-nil, arith, Bytes,
  length, take, drop, length-append, length-take, length-drop, take_front, drop-drop,
}
use torrent_client.Storage.{write_at}

-- `q` over the bytes of `s` from `o` on
unfoldable pub splice : Bytes → ℕ → Bytes → Bytes
splice s o q = take o s ++ (q ++ drop (o + length q) s)

pub take_past : (s t : Bytes) (n : ℕ) → length s ≤ n → take n (s ++ t) ≡ s ++ take (n - length s) t
take_past [] t n h = ap (λ k. take k t) (omega arith)
take_past (x ∷ s) t zero h = absurd (omega arith)
take_past (x ∷ s) t (suc n) h =
    let e : suc n - suc (length s) ≡ n - length s = omega arith in
    rw e (ap (◌∷◌ x) (take_past s t n (omega arith)))

pub take_within : (s t : Bytes) (n : ℕ) → n ≤ length s → take n (s ++ t) ≡ take n s
take_within [] t zero h = refl
take_within [] t (suc n) h = absurd (omega arith)
take_within (x ∷ s) t zero h = refl
take_within (x ∷ s) t (suc n) h = ap (◌∷◌ x) (take_within s t n (omega arith))

pub drop_past : (s t : Bytes) (n : ℕ) → length s ≤ n → drop n (s ++ t) ≡ drop (n - length s) t
drop_past [] t n h = ap (λ k. drop k t) (omega arith)
drop_past (x ∷ s) t zero h = absurd (omega arith)
drop_past (x ∷ s) t (suc n) h =
    let e : suc n - suc (length s) ≡ n - length s = omega arith in
    rw e (drop_past s t n (omega arith))

pub drop_within : (s t : Bytes) (n : ℕ) → n ≤ length s → drop n (s ++ t) ≡ drop n s ++ t
drop_within s t zero h = refl
drop_within [] t (suc n) h = absurd (omega arith)
drop_within (x ∷ s) t (suc n) h = drop_within s t n (omega arith)

-- Within a file `WriteAt` is a splice.
pub write_at-splice : (c : Bytes) (o : ℕ) (q : Bytes) → o ≤ length c → write_at c o q ≡ splice c o q
unfolding write_at splice
write_at-splice c o q h = let e : o - length c ≡ 0 = omega arith in rw (e, append-nil)

-- A splice within the first of two texts, and one behind it.
pub splice_first :
    (c r : Bytes) (o : ℕ) (q : Bytes)
    → o + length q ≤ length c
    → splice (c ++ r) o q ≡ splice c o q ++ r
unfolding splice
splice_first c r o q h =
    rw (take_within c r o (omega arith), drop_within c r (o + length q) h) (simp append_assoc)

pub splice_second :
    (c r : Bytes) (o : ℕ) (q : Bytes) → splice (c ++ r) (length c + o) q ≡ c ++ splice r o q
unfolding splice
splice_second c r o q =
    let a : length c + o - length c ≡ o = omega arith in
    let b : length c + o + length q - length c ≡ o + length q = omega arith in
    rw
      (
        take_past c r (length c + o) (omega arith),
        drop_past c r (length c + o + length q) (omega arith),
        a,
        b,
      )
      (simp append_assoc)

pub length-splice :
    (s : Bytes) (o : ℕ) (q : Bytes) → o + length q ≤ length s → length (splice s o q) ≡ length s
unfolding splice
length-splice s o q h = omega (
  arith,
  length-append (take o s) (q ++ drop (o + length q) s),
  length-append q (drop (o + length q) s),
  length-take o s,
  length-drop (o + length q) s,
)

-- Two splices, the second right behind the first, are one.
pub splice-splice :
    (s : Bytes) (o : ℕ) (p q : Bytes)
    → o + length p + length q ≤ length s
    → splice (splice s o p) (o + length p) q ≡ splice s o (p ++ q)
unfolding splice
splice-splice s o p q h =
    let l = length-take o s in
    let t = take o s in
    let u = drop (o + length p) s in
    let a : o + length p - length t ≡ length p = omega arith in
    let b : o + length p + length q - length t - length p ≡ length q = omega arith in
    let c : o + length p + length q ≡ o + length (p ++ q) = omega (arith, length-append p q) in
    rw
      (
        take_past t (p ++ u) (o + length p) (omega arith),
        drop_past t (p ++ u) (o + length p + length q) (omega arith),
        a,
        take_front p u,
        drop_past p u (o + length p + length q - length t) (omega arith),
        b,
        drop-drop (o + length p) (length q) s,
        c,
      )
      (simp append_assoc)
