-- ===== src/Create/Hashes.antt =====
-- The hashes of `getFilePieceHashes` (pkg/torrent/util.go), piece by piece.
use torrent_client.Common.{
  ℕ, zero, suc, ◌+◌, ◌*◌, ◌≤◌, ◌<◌, ◌≡◌, refl, sym, ap, ◌∙◌, inl, inr, true, false, none, some, [],
  ◌∷◌, ◌++◌, map, append-nil, arith, ltb, ◌==◌, Bytes, length, take, drop, length-append,
  length-drop, take_front, drop_front, drop-drop,
}
use torrent_client.Common.Outcome.{Outcome, ok, err, read_failed, ◌>>=◌}
use torrent_client.Create.{single_hashes, create_single_file_torrent_info, hash_loop, at_end}
use torrent_client.Torrent.{TorrentInfo}
use torrent_client.Session.Startup.{Scan}
use torrent_client.Session.Startup.Filling.{Fills, Stands, fill-Fills, length-map-some}

module _ (sha1 : Bytes → Bytes) (size : (b : Bytes) → length (sha1 b) ≡ 20) (piece_length : ℕ)
    (cut : 0 < piece_length) where
  -- The loop ends, and what it returns starts with the hash of each piece of the text `t`.
  pub record Hashes (t : Bytes) (r : Outcome Bytes) : Type 0 where
    pub hashes : Bytes
    pub made : r ≡ ok hashes
    pub each :
        (j : ℕ)
        → j * piece_length < length t
        → (take 20 (drop (20 * j) hashes) ≡ sha1 (take piece_length (drop (j * piece_length) t)))
          × (20 * (j + 1) ≤ length hashes)

  -- What the record says of piece `j`.
  abbrev Hashed : (t hashes : Bytes) → ℕ → Type 0
  Hashed t hashes j =
      (take 20 (drop (20 * j) hashes) ≡ sha1 (take piece_length (drop (j * piece_length) t)))
      × (20 * (j + 1) ≤ length hashes)

  no_offset : 0 * piece_length ≡ 0
  no_offset = omega arith

  next_offset : (j : ℕ) → suc j * piece_length ≡ piece_length + j * piece_length
  next_offset j = grind arith

  -- the hash at the front
  first_Hashed : (t rest : Bytes) → Hashed t (sha1 (take piece_length t) ++ rest) 0
  first_Hashed t rest =
      let h = sha1 (take piece_length t) in
      let n = size (take piece_length t) in
      (rw no_offset (rw (← n) (take_front h rest)), omega (arith, n, length-append h rest))

  later_Hashed :
      (t rest : Bytes) (j : ℕ)
      → Hashed (drop piece_length t) rest j
      → Hashed t (sha1 (take piece_length t) ++ rest) (suc j)
  later_Hashed t rest j h =
      let a = sha1 (take piece_length t) in
      let n = size (take piece_length t) in
      let e : 20 * suc j ≡ 20 + 20 * j = omega arith in
      (
        rw (e, next_offset j)
            (ap (take 20) (
                sym (drop-drop 20 (20 * j) (a ++ rest))
                ∙ ap (drop (20 * j)) (rw (← n) (drop_front a rest)))
              ∙ h.0
              ∙ ap (λ c. sha1 (take piece_length c)) (drop-drop piece_length (j * piece_length) t)),
        omega (arith, n, h.1, length-append a rest),
      )

  -- The first piece is the whole text.
  last_each :
      (t : Bytes)
      → length t < piece_length
      → (j : ℕ) → j * piece_length < length t
      → Hashed t (sha1 (take piece_length t)) j
  last_each t short zero h =
      let f = first_Hashed t [] in rw (append-nil (sha1 (take piece_length t))) at f
  last_each t short (suc j) h = absurd (omega (arith, next_offset j))

  last_piece : (t : Bytes) → length t < piece_length → Hashes t (ok (sha1 (take piece_length t)))
  last_piece t short = record {
    hashes = sha1 (take piece_length t);
    made = refl;
    each = last_each t short;
  }

  more_each :
      (t rest : Bytes)
      → ((j : ℕ)
          → j * piece_length < length (drop piece_length t)
          → Hashed (drop piece_length t) rest j)
      → (j : ℕ) → j * piece_length < length t
      → Hashed t (sha1 (take piece_length t) ++ rest) j
  more_each t rest each zero h = first_Hashed t rest
  more_each t rest each (suc j) h =
      later_Hashed t rest j (each j (omega (arith, next_offset j, length-drop piece_length t)))

  more_pieces :
      (t : Bytes) (r : Outcome Bytes)
      → Hashes (drop piece_length t) r
      → Hashes t (r >>= λ rest. ok (sha1 (take piece_length t) ++ rest))
  more_pieces t r h = record {
    hashes = sha1 (take piece_length t) ++ h.hashes;
    made = rw (h.made);
    each = more_each t h.hashes h.each;
  }

  filled :
      (s : Scan) (t : Bytes)
      → Stands s t
      → Fills (err read_failed) s (suc (piece_length + length s.later)) piece_length [] t
  filled s t st =
      rw (st.scans, ← st.reads)
        (fill-Fills (err read_failed) (suc (piece_length + length (map some st.others))) st.front
          st.others piece_length [] (omega (arith, length-map-some st.others)))

  pub hash_loop-Hashes :
      (fuel : ℕ) (s : Scan) (t : Bytes)
      → length t < fuel
      → Stands s t
      → Hashes t (hash_loop sha1 fuel piece_length s)
  unfolding hash_loop at_end
  hash_loop-Hashes zero s t h st = absurd (omega arith)
  hash_loop-Hashes (suc fuel) s t h st =
      let f = filled s t st in
      let positive : ltb 0 piece_length ≡ true = ground arith in
      elim f.stands [
        | inr (short, e) ↦ rw (f.fills, e, positive) (last_piece t short)
        | inl (st', long) ↦
            let rest = length-drop piece_length t in
            let e = st'.scans in
            rw (f.fills, e, positive)
              (more_pieces t _
                (rw (← e) (hash_loop-Hashes fuel f.after (drop piece_length t) (omega arith) st')))
      ]

  single_hashes-Hashes :
      (fuel : ℕ) (c : Bytes) → length c < fuel → Hashes c (single_hashes sha1 fuel piece_length c)
  unfolding single_hashes
  single_hashes-Hashes zero c h = absurd (omega arith)
  single_hashes-Hashes (suc fuel) [] h = record {
    hashes = [];
    made = refl;
    each = λ j lt. absurd (omega arith);
  }
  single_hashes-Hashes (suc fuel) (x ∷ c) h = more_pieces (x ∷ c) _ (
      single_hashes-Hashes fuel (drop piece_length (x ∷ c))
        (omega (arith, length-drop piece_length (x ∷ c))))

  -- For a file that can be opened and a positive piece length, and a hash function with hashes of
  -- 20 bytes, `createSingleFileTorrentInfo` comes to an end with no error: the torrent has the name
  -- and the size of the file, and at 20 times the number of a piece the hash of that piece.
  pub create_single_file_torrent_info-Hashes :
      (c name : Bytes) (ti : TorrentInfo)
      → ti.piece_length ≡ piece_length
      → (hashes : Bytes) × (create_single_file_torrent_info sha1 (some c) name (some (length c)) ti
          ≡ ok (record ti { length = length c; name = name; pieces = hashes }, none))
        × ((j : ℕ)
            → j * piece_length < length c
            → take 20 (drop (20 * j) hashes) ≡ sha1 (take piece_length (drop (j * piece_length) c)))
  unfolding create_single_file_torrent_info
  create_single_file_torrent_info-Hashes c name ti e =
      let h = single_hashes-Hashes (suc (length c)) c (omega arith) in
      let made : single_hashes sha1 (suc (length c)) ti.piece_length c ≡ ok h.hashes =
        ap (λ p. single_hashes sha1 (suc (length c)) p c) e ∙ h.made in
      let positive : (ti.piece_length == 0) ≡ false = ground arith in
      (h.hashes, rw (create_single_file_torrent_info, positive, made), λ j lt. (h.each j lt).0)
