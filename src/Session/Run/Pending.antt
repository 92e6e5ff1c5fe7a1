-- ===== src/Session/Run/Pending.antt =====
-- The indices that goroutines wait to send back (pkg/torrent/torrentsession.go), counted.
use torrent_client.Common.{
  ℕ, zero, suc, ◌+◌, ◌<◌, ◌≡◌, ap, inl, inr, false, some, List, [], ◌∷◌, ◌++◌, arith, ◌==◌,
  if◌then◌else◌, Bool-cases, get_elem?, set,
}
use torrent_client.Cache.{delete}
use torrent_client.Session.Run.{Worker, looping, gone, waiting}

abbrev pub times : ℕ → List ℕ → ℕ
times k [] = 0
times k (j ∷ l) = (if j == k then 1 else 0) + times k l

abbrev pub pending_of : Worker → List ℕ
pending_of (looping pc) = []
pending_of (gone pc) = []
pending_of (waiting k leaves pc) = k ∷ []

abbrev pub pending : List Worker → List ℕ
pending [] = []
pending (w ∷ ws) = pending_of w ++ pending ws

times-append : (k : ℕ) (l m : List ℕ) → times k (l ++ m) ≡ times k l + times k m
times-append k [] m = omega arith
times-append k (j ∷ l) m = omega (arith, times-append k l m)

-- A worker changes from `w` to `v`.
pub times-pending-set :
    (k : ℕ) (ws : List Worker) (i : ℕ) (w v : Worker)
    → get_elem? ws i ≡ some w
    → times k (pending (set ws i v)) + times k (pending_of w)
      ≡ times k (pending ws) + times k (pending_of v)
times-pending-set k [] i w v e = absurd (ground arith)
times-pending-set k (u ∷ ws) zero w v e =
    let same : u ≡ w = cc in
    rw same (
      omega (
        arith,
        times-append k (pending_of v) (pending ws),
        times-append k (pending_of w) (pending ws),
      ))
times-pending-set k (u ∷ ws) (suc i) w v e = omega (
  arith,
  times-append k (pending_of u) (pending ws),
  times-append k (pending_of u) (pending (set ws i v)),
  times-pending-set k ws i w v e,
)

pub pending-append :
    (k : ℕ) (ws : List Worker) (w : Worker)
    → times k (pending (ws ++ (w ∷ []))) ≡ times k (pending ws) + times k (pending_of w)
pending-append k [] w = omega (arith, times-append k (pending_of w) [])
pending-append k (u ∷ ws) w = omega (
  arith,
  times-append k (pending_of u) (pending ws),
  times-append k (pending_of u) (pending (ws ++ (w ∷ []))),
  pending-append k ws w,
)

-- Where a list has `k`, it is split at the first one.
pub record Split (k : ℕ) (l : List ℕ) : Type 0 where
  pub before : List ℕ
  pub after : List ℕ
  pub whole : l ≡ before ++ (k ∷ after)
  pub rest : delete k l ≡ before ++ after

later : (k j : ℕ) (l : List ℕ) → (j == k) ≡ false → Split k l → Split k (j ∷ l)
unfolding delete
later k j l other r = record {
  before = j ∷ r.before;
  after = r.after;
  whole = ap (λ x. j ∷ x) (r.whole);
  rest = rw (delete, other) (ap (λ x. j ∷ x) (r.rest));
}

pub times-Split : (k : ℕ) (l : List ℕ) → 0 < times k l → Split k l
unfolding delete
times-Split k [] h = absurd (omega arith)
times-Split k (j ∷ l) h = elim (Bool-cases (j == k)) [
  | inl same ↦
      let e : j ≡ k = ground arith in
      record { before = []; after = l; whole = ap (λ x. x ∷ l) e; rest = rw same }
  | inr other ↦ let h' = rw other at h in later k j l other (times-Split k l (omega (arith, h')))
]

pub times-Split-delete :
    (i k : ℕ) (l : List ℕ) → Split k l → times i (delete k l) + times i (k ∷ []) ≡ times i l
times-Split-delete i k l s =
    let b = times-append i (s.before) (s.after) in
    let w = times-append i (s.before) (k ∷ s.after) in
    let e = ap (times i) (s.rest) in let e' = ap (times i) (s.whole) in omega arith
