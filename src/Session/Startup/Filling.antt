-- ===== src/Session/Startup/Filling.antt =====
-- A round of `initializeBitField` reads on in the text of the files, from one file into the next.
use torrent_client.Common.{
  ℕ, zero, suc, ◌+◌, ◌-◌, ◌≤◌, ◌<◌, ◌≡◌, refl, sym, ap, ◌∙◌, ◌⊎◌, inl, inr, true, false, some, List,
  [], ◌∷◌, ◌++◌, map, append_assoc, append-nil, arith, ltb, Bool-cases, Bytes, length, take, drop,
  length-append, length-take, length-drop,
}
use torrent_client.Common.Outcome.{Outcome, ok}
use torrent_client.Storage.Read.{drop_behind}
use torrent_client.Session.Startup.{Scan, fill, closed, open_next}

-- The files from the open one on, one behind the other.
unfoldable pub text : Bytes → List Bytes → Bytes
text c [] = c
text c (c' ∷ cs) = c ++ text c' cs

-- All files could be opened.
abbrev pub scan : Bytes → List Bytes → Scan
scan c cs = record { file = some c; later = map some cs }

pub length-map-some : (cs : List Bytes) → length (map some cs) ≡ length cs
length-map-some [] = refl
length-map-some (c ∷ cs) = omega (arith, length-map-some cs)

take_across :
    (w : ℕ) (c t : Bytes)
    → take w (c ++ t) ≡ take w c ++ take (w - length (take w c)) (drop w c ++ t)
take_across zero c t = refl
take_across (suc w) [] t = let e : suc w - 0 ≡ suc w = omega arith in rw e
take_across (suc w) (x ∷ c) t =
    let e : suc w - suc (length (take w c)) ≡ w - length (take w c) = omega arith in
    rw e (ap (◌∷◌ x) (take_across w c t))

drop_across : (w : ℕ) (c t : Bytes) → drop w (c ++ t) ≡ drop (w - length (take w c)) (drop w c ++ t)
drop_across zero c t = refl
drop_across (suc w) [] t = let e : suc w - 0 ≡ suc w = omega arith in rw e
drop_across (suc w) (x ∷ c) t =
    let e : suc w - suc (length (take w c)) ≡ w - length (take w c) = omega arith in
    rw e (drop_across w c t)

pub text_open : (c : Bytes) (cs : List Bytes) → text c cs ≡ c ++ text [] cs
unfolding text
text_open c [] = sym (append-nil c)
text_open c (c' ∷ cs) = refl

-- What is left to read is the text `t`.
pub record Stands (s : Scan) (t : Bytes) : Type 0 where
  pub front : Bytes
  pub others : List Bytes
  pub scans : s ≡ scan front others
  pub reads : text front others ≡ t

module _ (fail : Outcome (Bytes × Scan)) where
  -- The round fills the buffer with the next `w` bytes, fewer at the end of the last file.
  pub record Fills (s : Scan) (fuel w : ℕ) (got t : Bytes) : Type 0 where
    pub after : Scan
    pub fills : fill fail fuel s w got ≡ ok (got ++ take w t, after)
    pub stands : (Stands after (drop w t) × (w ≤ length t)) ⊎ ((length t < w) × (after ≡ closed))

  shift :
      (s s' : Scan) (fuel fuel' w w' : ℕ) (got b t t' : Bytes)
      → fill fail fuel s w got ≡ fill fail fuel' s' w' (got ++ b)
      → take w t ≡ b ++ take w' t'
      → drop w t ≡ drop w' t'
      → (length t' < w' → length t < w)
      → (w' ≤ length t' → w ≤ length t)
      → Fills s' fuel' w' (got ++ b) t'
      → Fills s fuel w got t
  shift s s' fuel fuel' w w' got b t t' same front back short long f = record {
    after = f.after;
    fills =
        same
        ∙ f.fills
        ∙ ap (λ x. ok (x, f.after))
            (append_assoc got b (take w' t') ∙ ap (λ x. got ++ x) (sym front));
    stands = elim f.stands [ inl h ↦ inl (rw back h.0, long h.1) | inr h ↦ inr (short h.0, h.1) ];
  }

  -- the read does not reach the end of the buffer's half, and goes on in the same file
  stays_Fills :
      (fuel : ℕ) (c : Bytes) (cs : List Bytes) (w : ℕ) (got : Bytes)
      → ltb (length (take (suc w) c)) (suc w - length (take (suc w) c)) ≡ false
      → Fills
          (scan (drop (suc w) c) cs)
          fuel
          (suc w - length (take (suc w) c))
          (got ++ take (suc w) c)
          (text (drop (suc w) c) cs)
      → Fills (scan c cs) (suc fuel) (suc w) got (text c cs)
  unfolding fill
  stays_Fills fuel c cs w got stays f =
      let b = take (suc w) c in
      let left = suc w - length b in
      let rest_of = drop (suc w) c in
      let t = text [] cs in
      let here = text_open c cs in
      let there = text_open rest_of cs in
      let size = length-take (suc w) c in
      let rest = length-drop (suc w) c in
      shift (scan c cs) (scan rest_of cs) (suc fuel) fuel (suc w) left got b (text c cs)
        (text rest_of cs) (rw (fill, stays)) (rw (here, there) (take_across (suc w) c t))
        (rw (here, there) (drop_across (suc w) c t))
        (λ short.
          omega
            (arith, ap length here, ap length there, length-append c t, length-append rest_of t))
        (λ long.
          omega
            (arith, ap length here, ap length there, length-append c t, length-append rest_of t))
        f

  -- the file is at its end, and the next one is opened
  next_Fills :
      (fuel : ℕ) (c c' : Bytes) (cs : List Bytes) (w : ℕ) (got : Bytes)
      → ltb (length (take (suc w) c)) (suc w - length (take (suc w) c)) ≡ true
      → Fills
          (scan c' cs)
          fuel
          (suc w - length (take (suc w) c))
          (got ++ take (suc w) c)
          (text c' cs)
      → Fills (scan c (c' ∷ cs)) (suc fuel) (suc w) got (text c (c' ∷ cs))
  unfolding text fill
  next_Fills fuel c c' cs w got next f =
      let b = take (suc w) c in
      let left = suc w - length b in
      let t = text c' cs in
      let size = length-take (suc w) c in
      let out : drop (suc w) c ≡ [] = drop_behind c (suc w) (ground arith) in
      shift (scan c (c' ∷ cs)) (scan c' cs) (suc fuel) fuel (suc w) left got b (c ++ t) t
        (rw (fill, next, open_next)) (take_across (suc w) c t ∙ rw out)
        (drop_across (suc w) c t ∙ rw out) (λ short. omega (arith, length-append c t))
        (λ long. omega (arith, length-append c t)) f

  last_Fills :
      (fuel : ℕ) (c : Bytes) (w : ℕ) (got : Bytes)
      → ltb (length (take (suc w) c)) (suc w - length (take (suc w) c)) ≡ true
      → Fills (scan c []) (suc fuel) (suc w) got (text c [])
  unfolding text fill
  last_Fills fuel c w got next = record {
    after = closed;
    fills = rw (fill, next, open_next);
    stands = inr (let size = length-take (suc w) c in ground arith, refl);
  }

  pub fill-Fills :
      (fuel : ℕ) (c : Bytes) (cs : List Bytes) (w : ℕ) (got : Bytes)
      → w + length cs < fuel
      → Fills (scan c cs) fuel w got (text c cs)
  unfolding fill
  fill-Fills fuel c cs zero got h = record {
    after = scan c cs;
    fills = rw append-nil;
    stands = inl (record { front = c; others = cs; scans = refl; reads = refl }, omega arith);
  }
  fill-Fills zero c cs (suc w) got h = absurd (omega arith)
  fill-Fills (suc fuel) c [] (suc w) got h =
      elim (Bool-cases (ltb (length (take (suc w) c)) (suc w - length (take (suc w) c)))) [
        | inr stays ↦
            stays_Fills fuel c [] w got stays (
              fill-Fills fuel (drop (suc w) c) [] (suc w - length (take (suc w) c)) _
                (ground arith))
        | inl next ↦ last_Fills fuel c w got next
      ]
  fill-Fills (suc fuel) c (c' ∷ cs) (suc w) got h =
      elim (Bool-cases (ltb (length (take (suc w) c)) (suc w - length (take (suc w) c)))) [
        | inr stays ↦ stays_Fills fuel c (c' ∷ cs) w got stays (
            fill-Fills fuel (drop (suc w) c) (c' ∷ cs) (suc w - length (take (suc w) c)) _
              (ground arith))
        | inl next ↦
            next_Fills fuel c c' cs w got next
              (fill-Fills fuel c' cs (suc w - length (take (suc w) c)) _ (ground arith))
      ]
