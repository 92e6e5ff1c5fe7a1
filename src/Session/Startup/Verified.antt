-- ===== src/Session/Startup/Verified.antt =====
-- What `initializeBitField` finds (pkg/torrent/torrentsession.go).
use torrent_client.Common.{
  ℕ, zero, suc, ◌+◌, ◌-◌, ◌*◌, ◌≤◌, ◌<◌, ◌≡◌, refl, sym, ap, ◌∙◌, inl, inr, Bool, Option, some,
  List, [], ◌∷◌, map, arith, ◌==◌, Bool-cases, Bytes, length, take, drop, All, length-drop,
  take-nil,
}
use torrent_client.Bencode.Value.{eq_bytes}
use torrent_client.Bitfield.{ThreadSafeBitfield, new_thread_safe_bitfield, safe_has_piece}
use torrent_client.Bitfield.Bytewise.{IsByte}
use torrent_client.Cache.{piece_size}
use torrent_client.Cache.Transparent.{expected}
use torrent_client.Common.Outcome.{Outcome, ok}
use torrent_client.Session.Startup.{close_tally, initialize_bit_field}
use torrent_client.Session.Startup.Filling.{text_open, scan, text}
use torrent_client.Session.Startup.Packing.{
  close_tally-IsByte, length-close_tally, close_tally-Packs, start-Packs,
}
use torrent_client.Storage.{Disk}
use torrent_client.Storage.Layout.{contents-HasFile, HasFiles, stream, length-stream}
use torrent_client.Torrent.{TorrentFile, TorrentInfo, get_num_pieces, get_total_length, sum_lengths}
use torrent_client.Torrent.Pieces.{get_num_pieces-lower, get_num_pieces-upper}
use torrent_client.Session.Startup.Checking.{
  is_right, results, length-results, get_or-results, check_loop-Checks,
}

module _ (sha1 : Bytes → Bytes) (place : TorrentFile → ℕ) (d : Disk) (ti : TorrentInfo) where
  -- Whether the files hold piece `i` with the hash that the torrent gives.
  unfoldable pub on_disk : ℕ → Bool
  on_disk i = eq_bytes (take 20 (drop (20 * i) ti.pieces)) (sha1 (expected place d ti i))

  -- What `os.Open` finds at the paths of the files.
  abbrev pub found : List TorrentFile → List (Option Bytes)
  found = map (λ f. d (place f))

  pub record Opened (fs : List TorrentFile) : Type 0 where
    pub texts : List Bytes
    pub opens : found fs ≡ map some texts
    pub joins : text [] texts ≡ stream place d fs

  pub opened : (fs : List TorrentFile) → HasFiles place d fs → Opened fs
  unfolding text stream
  opened [] h = record { texts = []; opens = refl; joins = refl }
  opened (f ∷ fs) (h, hs) =
      let o = opened fs hs in
      record {
        texts = h.content ∷ o.texts;
        opens = rw (h.stored, o.opens);
        joins = text_open h.content o.texts ∙ rw (contents-HasFile place d f h, o.joins);
      }

  take_past : (n : ℕ) (s : Bytes) → length s ≤ n → take n s ≡ s
  take_past n [] h = take-nil n
  take_past zero (x ∷ s) h = absurd (omega arith)
  take_past (suc n) (x ∷ s) h = ap (◌∷◌ x) (take_past n s (omega arith))

  at_most : (k p : ℕ) → 0 < p → k ≤ k * p
  at_most k p h = grind arith

  few_pieces : 0 < ti.piece_length → get_num_pieces ti ≤ get_total_length ti
  few_pieces cut = below (get_num_pieces ti) refl
    where
      below : (n : ℕ) → n ≡ get_num_pieces ti → n ≤ get_total_length ti
      below zero e = omega arith
      below (suc n) e =
          let l = get_num_pieces-lower ti n cut (omega arith) in
          omega (arith, at_most n ti.piece_length cut)

  -- A round reads the whole last piece and no more.
  pub read_piece :
      0 < ti.piece_length
      → length (stream place d ti.files) ≡ get_total_length ti
      → (i : ℕ) → i < get_num_pieces ti
      → take ti.piece_length (drop (i * ti.piece_length) (stream place d ti.files))
        ≡ expected place d ti i
  unfolding expected piece_size
  read_piece cut all i lt =
      let rest = drop (i * ti.piece_length) (stream place d ti.files) in
      let size = length-drop (i * ti.piece_length) (stream place d ti.files) in
      elim (Bool-cases (i + 1 == get_num_pieces ti)) [
        | inr more ↦ rw more
        | inl last ↦
            let e : get_num_pieces ti ≡ i + 1 = ground arith in
            let upper : get_total_length ti ≤ (i + 1) * ti.piece_length =
              rw (← e) (get_num_pieces-upper ti cut) in
            let m : (i + 1) * ti.piece_length ≡ i * ti.piece_length + ti.piece_length =
              grind arith in
            rw last (
              take_past ti.piece_length rest (omega (arith, all))
              ∙ sym
                  (take_past (get_total_length ti - i * ti.piece_length) rest (omega (arith, all))))
      ]

  length-found : (fs : List TorrentFile) → length (found fs) ≡ length fs
  length-found [] = refl
  length-found (f ∷ fs) = omega (arith, length-found fs)

  -- The check comes to an end with no error, and finds the pieces that are there; the bitfield has a
  -- bit for each piece.
  abbrev pub Finds : Outcome ThreadSafeBitfield → Type 0
  Finds r =
      (bf : ThreadSafeBitfield) × (r ≡ ok bf)
      × ((i : ℕ) → i < get_num_pieces ti → safe_has_piece bf i ≡ on_disk i)
      × All IsByte bf.bitfield
      × (get_num_pieces ti ≤ 8 * length bf.bitfield)

  start_from :
      (texts : List Bytes)
      → 0 < ti.piece_length
      → length (stream place d ti.files) ≡ get_total_length ti
      → 20 * get_num_pieces ti ≤ length ti.pieces
      → 0 < length (map (λ (c : Bytes). some c) texts)
      → text [] texts ≡ stream place d ti.files
      → Finds (initialize_bit_field sha1 ti (map some texts))
  unfolding initialize_bit_field text safe_has_piece new_thread_safe_bitfield on_disk
  start_from [] cut all hashes h joins = absurd (omega arith)
  start_from (c ∷ cs) cut all hashes h joins =
      let whole = stream place d ti.files in
      let zero_offset : 0 * ti.piece_length ≡ 0 = omega arith in
      let few = few_pieces cut in
      let n = get_num_pieces ti in
      let run =
        check_loop-Checks sha1 ti whole cut all hashes n (suc (get_total_length ti)) 0 (scan c cs)
          (record { bits = []; v = 0; checked = 0 }) [] (omega arith) (omega arith) refl start-Packs
          (rw zero_offset (record { front = c; others = cs; scans = refl; reads = joins })) in
      let done = rw zero_offset at run.checks in
      (
        new_thread_safe_bitfield (close_tally run.tally) [],
        rw done,
        λ i lt.
            close_tally-Packs (results sha1 ti whole 0 n) run.tally run.packs i
              (omega (arith, length-results sha1 ti whole 0 n))
            ∙ get_or-results sha1 ti whole 0 n i lt
            ∙ ap (is_right sha1 ti whole) (omega arith)
            ∙ ap (λ p. eq_bytes (take 20 (drop (20 * i) ti.pieces)) (sha1 p))
                (read_piece cut all i lt),
        close_tally-IsByte (results sha1 ti whole 0 n) run.tally run.packs,
        omega (
          arith,
          length-close_tally (results sha1 ti whole 0 n) run.tally run.packs,
          length-results sha1 ti whole 0 n,
        ),
      )

  -- For a torrent of several files with a positive piece length and a hash for each piece, whose
  -- files are on the disk with the lengths that it gives, the check at the start of a session
  -- comes to an end with no error and no panic, and finds exactly those pieces that the files hold
  -- with the right hash; the bitfield has a bit for each piece.
  pub initialize_bit_field-on_disk :
      0 < ti.piece_length
      → get_total_length ti ≡ sum_lengths ti.files
      → 20 * get_num_pieces ti ≤ length ti.pieces
      → 0 < length ti.files
      → HasFiles place d ti.files
      → Finds (initialize_bit_field sha1 ti (found ti.files))
  initialize_bit_field-on_disk cut multi hashes some_file has =
      let all = length-stream place d ti.files has ∙ sym multi in
      let o = opened ti.files has in
      rw (o.opens) (
        start_from o.texts cut all hashes
          (omega (arith, ap length (o.opens), length-found ti.files)) o.joins)
