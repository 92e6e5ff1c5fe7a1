-- ===== src/Session/Startup/Checking.antt =====
-- The loop of `initializeBitField` over a text (pkg/torrent/torrentsession.go).
use torrent_client.Common.{
  ℕ, zero, suc, ◌+◌, ◌*◌, ◌≤◌, ◌<◌, ◌≡◌, refl, ap, ◌∙◌, inl, inr, Bool, true, false, some, List, [],
  ◌∷◌, ◌++◌, map, append_assoc, append-nil, arith, ltb, leb, lt→ltb, Bytes, length, get_or, take,
  drop, length-append, length-drop, drop-drop,
}
use torrent_client.Bencode.Value.{eq_bytes}
use torrent_client.Common.Outcome.{Outcome, ok, panic}
use torrent_client.Session.Startup.{Scan, Tally, fill, check_loop, count_piece}
use torrent_client.Session.Startup.Filling.{Fills, Stands, fill-Fills, length-map-some}
use torrent_client.Session.Startup.Packing.{Packs, count_piece-Packs}
use torrent_client.Torrent.{TorrentInfo, get_num_pieces, get_piece_hash, get_total_length}
use torrent_client.Torrent.Pieces.{get_num_pieces-lower, get_num_pieces-upper}

module _ (sha1 : Bytes → Bytes) (ti : TorrentInfo) (whole : Bytes) where
  -- Whether piece `k` of the text has the hash that the torrent gives.
  abbrev pub is_right : ℕ → Bool
  is_right k =
      eq_bytes (take 20 (drop (20 * k) ti.pieces))
        (sha1 (take ti.piece_length (drop (k * ti.piece_length) whole)))

  -- the results for `n` pieces from `k` on
  unfoldable pub results : (k n : ℕ) → List Bool
  results k zero = []
  results k (suc n) = is_right k ∷ results (k + 1) n

  pub length-results : (k n : ℕ) → length (results k n) ≡ n
  unfolding results
  length-results k zero = refl
  length-results k (suc n) = omega (arith, length-results (k + 1) n)

  pub get_or-results : (k n j : ℕ) → j < n → get_or (results k n) j false ≡ is_right (k + j)
  unfolding results
  get_or-results k zero j h = absurd (omega arith)
  get_or-results k (suc n) zero h = ap is_right (omega arith)
  get_or-results k (suc n) (suc j) h =
      get_or-results (k + 1) n j (omega arith) ∙ ap is_right (omega arith)

  -- The loop at piece `k`, with `n` pieces to come.
  pub record Checks (k n : ℕ) (bs : List Bool) (r : Outcome Tally) : Type 0 where
    pub tally : Tally
    pub checks : r ≡ ok tally
    pub packs : Packs (bs ++ results k n) tally

  module _ (cut : 0 < ti.piece_length) (all : length whole ≡ get_total_length ti)
      (hashes : 20 * get_num_pieces ti ≤ length ti.pieces) where
    hash_of :
        (k : ℕ)
        → k < get_num_pieces ti
        → get_piece_hash ti k ≡ ok (take 20 (drop (20 * k) ti.pieces))
    unfolding get_piece_hash
    hash_of k h =
        let inside : leb (20 * (k + 1)) (length ti.pieces) ≡ true = ground arith in rw inside

    -- behind the last piece
    check_loop-end :
        (fuel k : ℕ) (s : Scan) (t : Tally) (i : ℕ) (bs : List Bool)
        → get_total_length ti ≤ i
        → Packs bs t
        → Checks k 0 bs (check_loop sha1 (suc fuel) ti s t i)
    unfolding check_loop results
    check_loop-end fuel k s t i bs h p =
        let out : ltb i (get_total_length ti) ≡ false = ground arith in
        record { tally = t; checks = rw (out, check_loop); packs = rw append-nil p }

    -- One piece.
    check_loop-piece :
        (fuel k : ℕ) (s after : Scan) (t : Tally)
        → k < get_num_pieces ti
        → t.checked ≡ k
        → fill panic (suc (ti.piece_length + length s.later)) s ti.piece_length []
          ≡ ok (take ti.piece_length (drop (k * ti.piece_length) whole), after)
        → check_loop sha1 (suc fuel) ti s t (k * ti.piece_length)
          ≡ check_loop sha1 fuel ti after (count_piece t (is_right k)) ((k + 1) * ti.piece_length)
    unfolding check_loop
    check_loop-piece fuel k s after t lt c f =
        let inside : ltb (k * ti.piece_length) (get_total_length ti) ≡ true =
          lt→ltb _ _ (get_num_pieces-lower ti k cut lt) in
        let i : k * ti.piece_length + ti.piece_length ≡ (k + 1) * ti.piece_length = grind arith in
        rw (inside, f, c, hash_of k lt, i, check_loop)

    add_result :
        (k n : ℕ) (bs : List Bool) (r r' : Outcome Tally)
        → r ≡ r'
        → Checks (k + 1) n (bs ++ (is_right k ∷ [])) r'
        → Checks k (suc n) bs r
    unfolding results
    add_result k n bs r r' e c = record {
      tally = c.tally;
      checks = e ∙ c.checks;
      packs = rw (← append_assoc bs (is_right k ∷ []) (results (k + 1) n)) c.packs;
    }

    -- The first piece that is shorter than the others is the last one.
    short_end :
        (k : ℕ)
        → length (drop (k * ti.piece_length) whole) < ti.piece_length
        → get_total_length ti ≤ (k + 1) * ti.piece_length
    short_end k short =
        let e = length-drop (k * ti.piece_length) whole in
        let i : k * ti.piece_length + ti.piece_length ≡ (k + 1) * ti.piece_length = grind arith in
        omega (arith, all)

    filled :
        (k : ℕ) (s : Scan)
        → Stands s (drop (k * ti.piece_length) whole)
        → Fills panic s
            (suc (ti.piece_length + length s.later))
            ti.piece_length
            []
            (drop (k * ti.piece_length) whole)
    filled k s st =
        rw (st.scans, ← st.reads)
          (fill-Fills panic (suc (ti.piece_length + length (map some st.others))) st.front st.others
            ti.piece_length [] (omega (arith, length-map-some st.others)))

    next_text :
        (k : ℕ)
        → drop ti.piece_length (drop (k * ti.piece_length) whole)
          ≡ drop ((k + 1) * ti.piece_length) whole
    next_text k =
        let i : k * ti.piece_length + ti.piece_length ≡ (k + 1) * ti.piece_length = grind arith in
        rw (← i) (drop-drop (k * ti.piece_length) ti.piece_length whole)

    pub check_loop-Checks :
        (n fuel k : ℕ) (s : Scan) (t : Tally) (bs : List Bool)
        → n < fuel
        → k + n ≡ get_num_pieces ti
        → t.checked ≡ k
        → Packs bs t
        → Stands s (drop (k * ti.piece_length) whole)
        → Checks k n bs (check_loop sha1 fuel ti s t (k * ti.piece_length))
    check_loop-Checks n zero k s t bs hf e c p st = absurd (omega arith)
    check_loop-Checks zero (suc fuel) k s t bs hf e c p st =
        let last : k ≡ get_num_pieces ti = omega arith in
        check_loop-end fuel k s t (k * ti.piece_length) bs (rw last (get_num_pieces-upper ti cut)) p
    check_loop-Checks (suc n) (suc zero) k s t bs hf e c p st = absurd (omega arith)
    check_loop-Checks (suc n) (suc (suc fuel)) k s t bs hf e c p st =
        let f = filled k s st in
        let t' = count_piece t (is_right k) in
        let p' = count_piece-Packs bs t (is_right k) p in
        let step = check_loop-piece (suc fuel) k s f.after t (omega arith) c f.fills in
        let c' : t'.checked ≡ k + 1 = omega (
          arith,
          p'.counted,
          p.counted,
          ap length (p'.cut),
          ap length (p.cut),
          length-append bs (is_right k ∷ []),
          length-append p'.front p'.part,
          length-append p.front p.part,
        ) in
        elim f.stands [
          | inl st' ↦ add_result k n bs _ _ step (
              check_loop-Checks n (suc fuel) (k + 1) f.after t' (bs ++ (is_right k ∷ []))
                (omega arith) (omega arith) c' p' (rw (← next_text k) st'.0))
          | inr short ↦
              add_result k n bs _ _ step (at_end n fuel k f.after t' bs e p' (short_end k short.0))
        ]
      where
        at_end :
            (n fuel k : ℕ) (s : Scan) (t : Tally) (bs : List Bool)
            → k + suc n ≡ get_num_pieces ti
            → Packs (bs ++ (is_right k ∷ [])) t
            → get_total_length ti ≤ (k + 1) * ti.piece_length
            → Checks
                (k + 1)
                n
                (bs ++ (is_right k ∷ []))
                (check_loop sha1 (suc fuel) ti s t ((k + 1) * ti.piece_length))
        at_end zero fuel k s t bs e p h =
            check_loop-end fuel (k + 1) s t ((k + 1) * ti.piece_length) (bs ++ (is_right k ∷ [])) h
              p
        at_end (suc n) fuel k s t bs e p h =
            absurd (let l = get_num_pieces-lower ti (k + 1) cut (omega arith) in omega arith)
