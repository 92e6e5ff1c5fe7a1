-- ===== src/Session/Startup/Created.antt =====
-- The files that a session makes at its start (pkg/torrent/torrentsession.go, pkg/util/file.go).
use torrent_client.Common.{
  ℕ, zero, suc, ◌+◌, ◌-◌, ◌≤◌, ◌<◌, ◌≡◌, refl, ap, ◌∙◌, ◌⊎◌, inl, inr, false, none, some, List, [],
  ◌∷◌, ◌++◌, arith, ltb, ◌==◌, ltb→lt, ==_refl, Bool-cases, Bytes, replicate, All, length-replicate,
}
use torrent_client.Common.Outcome.{Outcome, ok, ◌>>=◌}
use torrent_client.Session.Startup.{
  write_chunks, write_singles, create_empty_file, initialize_file, initialize_files,
}
use torrent_client.Storage.{Disk, with_content}
use torrent_client.Storage.Layout.{HasFile, HasFiles, Distinct, Apart}
use torrent_client.Torrent.{TorrentFile}

abbrev zeros : ℕ → Bytes
zeros n = replicate n 0

zeros_add : (a b : ℕ) → zeros a ++ zeros b ≡ zeros (a + b)
zeros_add zero b = let e : 0 + b ≡ b = omega arith in rw e
zeros_add (suc a) b =
    let e : suc a + b ≡ suc (a + b) = omega arith in rw e (ap (◌∷◌ 0) (zeros_add a b))

-- Chunks are written up to the last one.
record Chunks (size i : ℕ) (r : Outcome (Bytes × ℕ)) : Type 0 where
  count : ℕ
  inside : i + count ≤ size
  wrote : r ≡ ok (zeros count, i + count)

more_Chunks :
    (size i : ℕ) (r : Outcome (Bytes × ℕ))
    → Chunks size (i + 1000) r
    → Chunks size i (r >>= λ r. ok (zeros 1000 ++ r.0, r.1))
more_Chunks size i r c =
    let e : i + 1000 + c.count ≡ i + (1000 + c.count) = omega arith in
    record {
      count = 1000 + c.count;
      inside = omega (arith, c.inside);
      wrote = rw (c.wrote, e) (ap (λ z. ok (z, i + (1000 + c.count))) (zeros_add 1000 c.count));
    }

write_chunks-Chunks :
    (fuel size i : ℕ) → i ≤ size → size - i < fuel → Chunks size i (write_chunks fuel size i)
unfolding write_chunks
write_chunks-Chunks zero size i le h = absurd (omega arith)
write_chunks-Chunks (suc fuel) size i le h = elim (Bool-cases (ltb (i + 1000) size)) [
  | inr last ↦
      let e : i + 0 ≡ i = omega arith in
      rw last (record { count = 0; inside = omega arith; wrote = rw e })
  | inl more ↦
      let lt = ltb→lt _ _ more in
      rw more (
        more_Chunks size i (write_chunks fuel size (i + 1000))
          (write_chunks-Chunks fuel size (i + 1000) (omega arith) (omega arith)))
]

write_singles-zeros :
    (fuel size i : ℕ) → size - i < fuel → write_singles fuel size i ≡ ok (zeros (size - i))
unfolding write_singles
write_singles-zeros zero size i h = absurd (omega arith)
write_singles-zeros (suc fuel) size i h = elim (Bool-cases (ltb i size)) [
  | inr last ↦ let e : size - i ≡ 0 = ground arith in rw (last, e)
  | inl more ↦
      let e : size - i ≡ suc (size - (i + 1)) = ground arith in
      rw (more, write_singles-zeros fuel size (i + 1) (ground arith), e)
]

created :
    (size i : ℕ) (r : Outcome (Bytes × ℕ)) (c : Chunks size i r)
    → 0 ≡ i
    → (r >>= λ chunks. write_singles (suc size) size (chunks.1) >>= λ s. ok (chunks.0 ++ s))
      ≡ ok (zeros size)
created size i r c e =
    let n : c.count + (size - (i + c.count)) ≡ size = omega (arith, c.inside) in
    rw (
      c.wrote,
      write_singles-zeros (suc size) size (i + c.count) (omega arith),
      zeros_add c.count (size - (i + c.count)),
      n,
    )

-- `CreateEmptyFile` comes to an end and makes a file of `size` zeros.
pub create_empty_file-zeros : (size : ℕ) → create_empty_file size ≡ ok (zeros size)
unfolding create_empty_file
create_empty_file-zeros size =
    created size 0 (write_chunks (suc size) size 0)
      (write_chunks-Chunks (suc size) size 0 (omega arith) (omega arith)) refl

module _ (place : TorrentFile → ℕ) where
  -- A file is not there, or it has its length.
  abbrev pub Ready : Disk → TorrentFile → Type 0
  Ready d f = (d (place f) ≡ none) ⊎ HasFile place d f

  -- What an initialization leaves: the files are there, and no file that was there has changed.
  pub record Made (d : Disk) (P : Disk → Type 0) (others : ℕ → Type 0) (r : Outcome Disk)
      : Type 0 where
    pub disk : Disk
    pub made : r ≡ ok disk
    pub good : P disk
    pub kept : (k : ℕ) (c : Bytes) → d k ≡ some c → disk k ≡ some c
    untouched : (k : ℕ) → others k → disk k ≡ d k

  initialize_file-Made :
      (d : Disk) (f : TorrentFile)
      → Ready d f
      → Made d
          (λ d'. HasFile place d' f)
          (λ k. (k == place f) ≡ false)
          (initialize_file d (place f) f.length)
  unfolding initialize_file with_content
  initialize_file-Made d f (inr h) = record {
    disk = d;
    made = rw (initialize_file, h.stored);
    good = h;
    kept = λ k c e. e;
    untouched = λ k a. refl;
  }
  initialize_file-Made d f (inl new) = record {
    disk = with_content d (place f) (zeros f.length);
    made = rw (initialize_file, new, create_empty_file-zeros f.length);
    good = record {
      content = zeros f.length;
      stored = rw (==_refl (place f));
      full = length-replicate f.length 0;
    };
    kept = λ k c e. elim (Bool-cases (k == place f)) [
      | inl same ↦ let e' : k ≡ place f = ground arith in absurd (let n = rw e' at e in cc)
      | inr other ↦ rw other e
    ];
    untouched = λ k a. rw a;
  }

  still_Ready :
      (d d' : Disk) (k : ℕ) (fs : List TorrentFile)
      → Apart place k fs
      → ((j : ℕ) (c : Bytes) → d j ≡ some c → d' j ≡ some c)
      → ((j : ℕ) → (j == k) ≡ false → d' j ≡ d j)
      → All (Ready d) fs
      → All (Ready d') fs
  still_Ready d d' k [] a kept untouched h = tt
  still_Ready d d' k (f ∷ fs) (a, rest) kept untouched (inl new, h) =
      (inl (untouched (place f) a ∙ new), still_Ready d d' k fs rest kept untouched h)
  still_Ready d d' k (f ∷ fs) (a, rest) kept untouched (inr there, h) = (
    inr (record {
      content = there.content;
      stored = kept (place f) there.content there.stored;
      full = there.full;
    }),
    still_Ready d d' k fs rest kept untouched h,
  )

  -- `initialize_files` makes the files that are missing.
  pub initialize_files-Made :
      (d : Disk) (fs : List TorrentFile)
      → Distinct place fs
      → All (Ready d) fs
      → Made d
          (λ d'. HasFiles place d' fs)
          (λ k. All (λ f. (k == place f) ≡ false) fs)
          (initialize_files place d fs)
  unfolding initialize_files
  initialize_files-Made d [] apart h = record {
    disk = d;
    made = refl;
    good = tt;
    kept = λ k c e. e;
    untouched = λ k a. refl;
  }
  initialize_files-Made d (f ∷ fs) (a, rest) (h, hs) =
      let m = initialize_file-Made d f h in
      let ms =
        initialize_files-Made m.disk fs rest
          (still_Ready d m.disk (place f) fs a m.kept m.untouched hs) in
      record {
        disk = ms.disk;
        made = rw (m.made) ms.made;
        good = (
          record {
            content = m.good.content;
            stored = ms.kept (place f) m.good.content m.good.stored;
            full = m.good.full;
          },
          ms.good,
        );
        kept = λ k c e. ms.kept k c (m.kept k c e);
        untouched = λ k b. ms.untouched k b.1 ∙ m.untouched k b.0;
      }
