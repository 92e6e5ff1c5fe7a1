-- ===== src/Session/Machine/Rewrite.antt =====
-- Writing one piece leaves the other pieces as they were.
use torrent_client.Common.{
  ℕ, ◌+◌, ◌-◌, ◌*◌, ◌≤◌, ◌<◌, ◌≡◌, sym, ap, ◌∙◌, ◌≢◌, inl, inr, true, false, ◌||◌, ◌++◌, arith, ltb,
  ◌==◌, ltb→lt, Bool-cases, Bytes, length, take, drop, take-append-drop, length-take, length-drop,
  drop-drop,
}
use torrent_client.Bencode.Value.{eq_bytes}
use torrent_client.Cache.{piece_size}
use torrent_client.Cache.Transparent.{expected, piece_size-le}
use torrent_client.Session.Startup.Verified.{on_disk}
use torrent_client.Storage.{Disk}
use torrent_client.Storage.Layout.{stream}
use torrent_client.Storage.Read.{read-splice}
use torrent_client.Storage.Splice.{splice, take_within, drop_within, drop_past}
use torrent_client.Torrent.{TorrentFile, TorrentInfo, get_num_pieces, get_total_length}

-- what lies before the place of a splice
splice-before :
    (s : Bytes) (o : ℕ) (q : Bytes) (o' n : ℕ)
    → o' + n ≤ o
    → o + length q ≤ length s
    → take n (drop o' (splice s o q)) ≡ take n (drop o' s)
unfolding splice
splice-before s o q o' n h fits =
    let front = take o s in
    let rest = q ++ drop (o + length q) s in
    let size = length-take o s in
    let left : n ≤ length (drop o' front) = omega (arith, length-drop o' front) in
    let whole : take n (drop o' s) ≡ take n (drop o' front ++ drop o s) =
      ap (λ t. take n (drop o' t)) (sym (take-append-drop o s))
      ∙ ap (take n) (drop_within front (drop o s) o' (omega arith)) in
    rw (drop_within front rest o' (omega arith), take_within (drop o' front) rest n left)
      (sym (whole ∙ take_within (drop o' front) (drop o s) n left))

-- and what lies behind it
splice-behind :
    (s : Bytes) (o : ℕ) (q : Bytes) (o' : ℕ)
    → o + length q ≤ o'
    → o + length q ≤ length s
    → drop o' (splice s o q) ≡ drop o' s
unfolding splice
splice-behind s o q o' h fits =
    let front = take o s in
    let rest = drop (o + length q) s in
    let size = length-take o s in
    let past : o' - length front - length q ≡ o' - (o + length q) = omega arith in
    let sum : o + length q + (o' - (o + length q)) ≡ o' = omega arith in
    rw (
      drop_past front (q ++ rest) o' (omega arith),
      drop_past q rest (o' - length front) (omega arith),
      past,
      drop-drop (o + length q) (o' - (o + length q)) s,
      sum,
    )

module _ (sha1 : Bytes → Bytes) (place : TorrentFile → ℕ) (ti : TorrentInfo) (d d' : Disk) (i : ℕ)
    (piece : Bytes) (cut : 0 < ti.piece_length) (lt : i < get_num_pieces ti)
    (size : length piece ≡ piece_size ti i)
    (all : length (stream place d ti.files) ≡ get_total_length ti)
    (written : stream place d' ti.files
      ≡ splice (stream place d ti.files) (i * ti.piece_length) piece) where
  fits : i * ti.piece_length + length piece ≤ length (stream place d ti.files)
  fits = omega (arith, piece_size-le ti i cut lt, size, all)

  not_last : (j k : ℕ) → j < k → k < get_num_pieces ti → piece_size ti j ≡ ti.piece_length
  unfolding piece_size
  not_last j k h l = let e : (j + 1 == get_num_pieces ti) ≡ false = ground arith in rw e

  pub expected-write_self : expected place d' ti i ≡ piece
  unfolding expected
  expected-write_self =
      rw (written, ← size) (read-splice (stream place d ti.files) (i * ti.piece_length) piece fits)

  pub expected-write_other :
      (j : ℕ) → j < get_num_pieces ti → j ≢ i → expected place d' ti j ≡ expected place d ti j
  unfolding expected
  expected-write_other j lt_j ne =
      let s = stream place d ti.files in
      elim (Bool-cases (ltb j i)) [
        | inl before ↦
            let n = not_last j i (ltb→lt _ _ before) lt in
            let gap : j * ti.piece_length + ti.piece_length ≤ i * ti.piece_length =
              let h = ltb→lt _ _ before in grind arith in
            rw written (
              splice-before s (i * ti.piece_length) piece (j * ti.piece_length) (piece_size ti j)
                (omega (arith, n)) fits)
        | inr behind ↦
            let h : i < j = ground arith in
            let n = not_last i j h lt_j in
            let gap : i * ti.piece_length + ti.piece_length ≤ j * ti.piece_length = grind arith in
            rw written (
              ap (take (piece_size ti j)) (
                splice-behind s (i * ti.piece_length) piece (j * ti.piece_length)
                  (omega (arith, n, size)) fits))
      ]

  -- The pieces that were right are right, if the piece that is written is right.
  pub on_disk-write :
      eq_bytes (take 20 (drop (20 * i) ti.pieces)) (sha1 piece) ≡ true
      → (j : ℕ) → j < get_num_pieces ti
      → on_disk sha1 place d' ti j ≡ (j == i || on_disk sha1 place d ti j)
  unfolding on_disk
  on_disk-write valid j lt_j = elim (Bool-cases (j == i)) [
    | inl same ↦ let e : j ≡ i = ground arith in rw (same, e, expected-write_self) valid
    | inr other ↦ let ne : j ≢ i = ground arith in rw (other, expected-write_other j lt_j ne)
  ]
