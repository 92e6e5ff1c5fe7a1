-- ===== src/Peer/Metadata/Assembly.antt =====
-- The pieces of metadata in the buffer that they are put into (pkg/torrent/extensions.go).
use torrent_client.Common.{
  ℕ, zero, suc, ◌+◌, ◌-◌, ◌≤◌, ◌≡◌, sym, ap, ◌∙◌, true, [], ◌∷◌, ◌++◌, append_assoc, append-nil,
  arith, leb, Bytes, length, take, drop, replicate, length-append, length-take, length-drop,
  length-replicate, take-nil,
}
use torrent_client.Bitfield.{copy_into}
use torrent_client.Common.Outcome.{ok}
use torrent_client.Extension.{copy_at}
use torrent_client.Storage.Splice.{take_within, drop_past}

-- the piece of `m` bytes at `k`
abbrev pub chunk : (m : ℕ) → Bytes → (k : ℕ) → Bytes
chunk m b k = take m (drop k b)

-- the buffer with the first `k` bytes
abbrev pub assembled : Bytes → (k : ℕ) → Bytes
assembled b k = take k b ++ replicate (length b - k) 0

take_plus : (k m : ℕ) (s : Bytes) → take (k + m) s ≡ take k s ++ take m (drop k s)
take_plus zero m s = let e : 0 + m ≡ m = omega arith in rw e
take_plus (suc k) m [] = take-nil (suc k + m) ∙ sym (take-nil m)
take_plus (suc k) m (x ∷ s) =
    let e : suc k + m ≡ suc (k + m) = omega arith in rw e (ap (λ t. x ∷ t) (take_plus k m s))

drop-replicate : (m n : ℕ) → drop m (replicate {A = ℕ} n 0) ≡ replicate (n - m) 0
drop-replicate zero n = let e : n - 0 ≡ n = omega arith in rw e
drop-replicate (suc m) zero = let e : 0 - suc m ≡ 0 = omega arith in rw e
drop-replicate (suc m) (suc n) =
    let e : suc n - suc m ≡ n - m = omega arith in rw e (drop-replicate m n)

pub length-assembled : (b : Bytes) (k : ℕ) → k ≤ length b → length (assembled b k) ≡ length b
length-assembled b k h = omega (
  arith,
  length-append (take k b) (replicate (length b - k) 0),
  length-take k b,
  length-replicate {A = ℕ} (length b - k) 0,
)

take_past : (n : ℕ) (p : Bytes) → length p ≤ n → take n p ≡ p
take_past n [] h = take-nil n
take_past zero (x ∷ p) h = absurd (omega arith)
take_past (suc n) (x ∷ p) h = ap (λ t. x ∷ t) (take_past n p (omega arith))

-- Bytes that fit are put in front.
copy_into_fits :
    (n : ℕ) (p : Bytes)
    → length p ≤ n
    → copy_into (replicate n 0) p ≡ p ++ replicate (n - length p) 0
unfolding copy_into
copy_into_fits n p h =
    let size = length-replicate {A = ℕ} n 0 in
    rw (size, drop-replicate (length p) n, take_past n p h)

-- Putting the next piece behind the first `k` bytes gives the next buffer.
pub copy_at-chunk :
    (m : ℕ) (b : Bytes) (k : ℕ)
    → k ≤ length b
    → copy_at (assembled b k) k (chunk m b k) ≡ ok (assembled b (k + m))
unfolding copy_at
copy_at-chunk m b k h =
    let zeros = replicate {A = ℕ} (length b - k) 0 in
    let all = length-assembled b k h in
    let inside : leb k (length (assembled b k)) ≡ true = ground (arith, all) in
    let size = length-take k b in
    let rest = length-drop k b in
    let piece = length-take m (drop k b) in
    let front : take k (assembled b k) ≡ take k b =
      take_within (take k b) zeros k (omega arith) ∙ take_past k (take k b) (omega arith) in
    let none_left : k - length (take k b) ≡ 0 = omega arith in
    let back : drop k (assembled b k) ≡ zeros =
      drop_past (take k b) zeros k (omega arith) ∙ ap (λ j. drop j zeros) none_left in
    let left : length b - k - length (chunk m b k) ≡ length b - (k + m) = omega arith in
    let filled = copy_into_fits (length b - k) (chunk m b k) (omega arith) in
    rw (inside, front, back, filled, left, take_plus k m b)
      (ap ok (sym (append_assoc (take k b) (chunk m b k) (replicate (length b - (k + m)) 0))))

-- From a point behind the end on, the buffer is the metadata.
pub assembled_whole : (b : Bytes) (k : ℕ) → length b ≤ k → assembled b k ≡ b
assembled_whole b k h =
    let none_left : length b - k ≡ 0 = omega arith in rw (none_left, take_past k b h) (append-nil b)
