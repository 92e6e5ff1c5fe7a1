-- ===== src/Session/Pieces.antt =====
-- When a session has all its pieces.
use torrent_client.Common.{
  ℕ, zero, suc, ◌+◌, ◌≤◌, ◌<◌, ◌≡◌, refl, ◌↔◌, inl, inr, true, arith, ◌==◌, Bool-cases,
}
use torrent_client.Bitfield.{ThreadSafeBitfield, safe_has_piece}
use torrent_client.Session.{got_pieces, got_all_pieces}
use torrent_client.Torrent.{TorrentInfo, get_num_pieces}

got_pieces-all :
    (bf : ThreadSafeBitfield) (i n : ℕ)
    → got_pieces bf i n ≡ true
    → (k : ℕ) → i ≤ k
    → k < i + n
    → safe_has_piece bf k ≡ true
unfolding got_pieces
got_pieces-all bf i zero h k le lt = absurd (omega arith)
got_pieces-all bf i (suc n) h k le lt = elim (Bool-cases (safe_has_piece bf i)) [
  | inr missing ↦ ground arith
  | inl there ↦ elim (Bool-cases (k == i)) [
    | inl same ↦ let e : k ≡ i = ground arith in rw e there
    | inr later ↦ got_pieces-all bf (i + 1) n (rw there at h) k (ground arith) (omega arith)
  ]
]

all-got_pieces :
    (bf : ThreadSafeBitfield) (i n : ℕ)
    → ((k : ℕ) → i ≤ k → k < i + n → safe_has_piece bf k ≡ true)
    → got_pieces bf i n ≡ true
unfolding got_pieces
all-got_pieces bf i zero h = refl
all-got_pieces bf i (suc n) h =
    rw (h i (omega arith) (omega arith))
      (all-got_pieces bf (i + 1) n (λ k le lt. h k (omega arith) (omega arith)))

-- A session has all its pieces exactly where its bitfield has each piece of the torrent.
pub got_all_pieces_iff :
    (ti : TorrentInfo) (bf : ThreadSafeBitfield)
    → (got_all_pieces ti bf ≡ true) ↔ ((k : ℕ) → k < get_num_pieces ti → safe_has_piece bf k ≡ true)
unfolding got_all_pieces
got_all_pieces_iff ti bf = (
  (λ h k lt. got_pieces-all bf 0 (get_num_pieces ti) h k (omega arith) (omega arith)),
  (λ h. all-got_pieces bf 0 (get_num_pieces ti) (λ k le lt. h k (omega arith))),
)
