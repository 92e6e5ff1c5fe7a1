-- ===== src/Storage/Layout.antt =====
-- The files of a torrent as one text, and the file that holds a position of it.
use torrent_client.Common.{
  ℕ, ◌+◌, ◌-◌, ◌≤◌, ◌<◌, ◌≡◌, refl, sym, ap, ◌∙◌, inl, inr, Bool, true, false, none, some, List, [],
  ◌∷◌, ◌++◌, arith, ltb, ◌==◌, Bool-cases, Bytes, length, take, drop, length-append, All,
  length-drop,
}
use torrent_client.Torrent.{TorrentFile, sum_lengths}
use torrent_client.Storage.{Disk, with_content, write_at, read_at, find_file}
use torrent_client.Storage.Splice.{
  splice, write_at-splice, splice_first, splice_second, length-splice, take_within, drop_past,
  drop_within,
}

unfoldable pub contents : Disk → ℕ → Bytes
contents d k = elim (d k) [ none ↦ [] | some c ↦ c ]

with_content_self : (d : Disk) (k : ℕ) (c : Bytes) → with_content d k c k ≡ some c
unfolding with_content
with_content_self d k c = ground arith

with_content_ne : (d : Disk) (k j : ℕ) (c : Bytes) → (j == k) ≡ false → with_content d k c j ≡ d j
unfolding with_content
with_content_ne d k j c h = rw h

contents-with_content : (d : Disk) (k : ℕ) (c : Bytes) → contents (with_content d k c) k ≡ c
unfolding contents
contents-with_content d k c = rw (with_content_self d k c, contents)

contents-with_content_ne :
    (d : Disk) (k j : ℕ) (c : Bytes)
    → (j == k) ≡ false
    → contents (with_content d k c) j ≡ contents d j
unfolding contents
contents-with_content_ne d k j c h = rw (with_content_ne d k j c h, contents)

module _ (place : TorrentFile → ℕ) where
  -- The files one behind the other.
  unfoldable pub stream : Disk → List TorrentFile → Bytes
  stream d [] = []
  stream d (f ∷ fs) = contents d (place f) ++ stream d fs

  -- The file is on the disk, as long as the torrent says.
  pub record HasFile (d : Disk) (f : TorrentFile) : Type 0 where
    pub content : Bytes
    pub stored : d (place f) ≡ some content
    pub full : length content ≡ f.length

  abbrev pub HasFiles : Disk → List TorrentFile → Type 0
  HasFiles d = All (HasFile d)

  -- No file of the list has the place.
  abbrev pub Apart : ℕ → List TorrentFile → Type 0
  Apart k [] = Unit
  Apart k (f ∷ fs) = ((place f == k) ≡ false) × Apart k fs

  pub contents-HasFile :
      (d : Disk) (f : TorrentFile) (h : HasFile d f) → contents d (place f) ≡ h.content
  unfolding contents
  contents-HasFile d f h = rw (h.stored, contents)

  -- Different files have different places.
  abbrev pub Distinct : List TorrentFile → Type 0
  Distinct [] = Unit
  Distinct (f ∷ fs) = Apart (place f) fs × Distinct fs

  pub length-stream :
      (d : Disk) (fs : List TorrentFile) → HasFiles d fs → length (stream d fs) ≡ sum_lengths fs
  unfolding stream sum_lengths
  length-stream d [] h = refl
  length-stream d (f ∷ fs) (h, hs) = omega (
    arith,
    length-append (contents d (place f)) (stream d fs),
    length-stream d fs hs,
    ap length (contents-HasFile d f h),
    h.full,
  )

  stream-with_content :
      (d : Disk) (k : ℕ) (c : Bytes) (fs : List TorrentFile)
      → Apart k fs
      → stream (with_content d k c) fs ≡ stream d fs
  unfolding stream
  stream-with_content d k c [] h = refl
  stream-with_content d k c (f ∷ fs) h =
      rw (contents-with_content_ne d k (place f) c h.0, stream-with_content d k c fs h.1)

  HasFiles-with_content :
      (d : Disk) (k : ℕ) (c : Bytes) (fs : List TorrentFile)
      → Apart k fs
      → HasFiles d fs
      → HasFiles (with_content d k c) fs
  HasFiles-with_content d k c [] h v = tt
  HasFiles-with_content d k c (f ∷ fs) h (v, vs) = (
    record {
      content = v.content;
      stored = with_content_ne d k (place f) c h.0 ∙ v.stored;
      full = v.full;
    },
    HasFiles-with_content d k c fs h.1 vs,
  )

  -- Position `pos`, where the files begin at `counter`, lies in a file of the list: writes and
  -- reads within that file are writes and reads of the text.
  pub record Located (d : Disk) (fs : List TorrentFile) (pos counter : ℕ)
      (found : TorrentFile × ℕ × Bool) : Type 0 where
    pub hit : found.2 ≡ true
    pub from : found.1 ≤ pos
    pub within : pos < found.1 + found.0.length
    pub has : HasFile d found.0
    pub apart : (k : ℕ) → Apart k fs → (place (found.0) == k) ≡ false
    pub writes :
        (q : Bytes)
        → pos - found.1 + length q ≤ found.0.length
        → (stream (with_content d (place found.0) (write_at has.content (pos - found.1) q)) fs
            ≡ splice (stream d fs) (pos - counter) q)
          × HasFiles (with_content d (place found.0) (write_at has.content (pos - found.1) q)) fs
    pub reads :
        (n : ℕ)
        → pos - found.1 + n ≤ found.0.length
        → read_at has.content (pos - found.1) n ≡ take n (drop (pos - counter) (stream d fs))

  Located-here :
      (d : Disk) (f : TorrentFile) (fs : List TorrentFile) (pos counter : ℕ)
      → counter ≤ pos
      → pos < counter + f.length
      → Apart (place f) fs
      → HasFile d f
      → HasFiles d fs
      → Located d (f ∷ fs) pos counter (f, counter, true)
  unfolding stream read_at
  Located-here d f fs pos counter le lt apart h hs = record {
    hit = refl;
    from = le;
    within = lt;
    has = h;
    apart = λ k a. a.0;
    writes = λ q fits. (
      rw
          (
            contents-with_content d (place f) (write_at h.content (pos - counter) q),
            stream-with_content d (place f) (write_at h.content (pos - counter) q) fs apart,
            contents-HasFile d f h,
          )
          (rw (write_at-splice h.content (pos - counter) q (omega (arith, h.full)))
            (sym (splice_first h.content (stream d fs) (pos - counter) q (omega (arith, h.full))))),
      (
        record {
          content = write_at h.content (pos - counter) q;
          stored = with_content_self d (place f) (write_at h.content (pos - counter) q);
          full =
              rw (write_at-splice h.content (pos - counter) q (omega (arith, h.full)))
                (length-splice h.content (pos - counter) q (omega (arith, h.full)) ∙ h.full);
        },
        HasFiles-with_content d (place f) (write_at h.content (pos - counter) q) fs apart hs,
      ),
    );
    reads = λ n fits.
        rw
          (
            contents-HasFile d f h,
            drop_within h.content (stream d fs) (pos - counter) (omega (arith, h.full)),
          )
          (sym (
            take_within (drop (pos - counter) h.content) (stream d fs) n
              (omega (arith, h.full, length-drop (pos - counter) h.content))));
  }

  differs :
      {d : Disk} {fs : List TorrentFile} {pos counter : ℕ} {found : TorrentFile × ℕ × Bool}
      (f : TorrentFile)
      → Located d fs pos counter found
      → Apart (place f) fs
      → (place f == place found.0) ≡ false
  differs {found} f l apart = let e = l.apart (place f) apart in ground arith

  Located-there :
      (d : Disk) (f : TorrentFile) (fs : List TorrentFile) (pos counter : ℕ)
      (found : TorrentFile × ℕ × Bool)
      → counter + f.length ≤ pos
      → Apart (place f) fs
      → HasFile d f
      → Located d fs pos (counter + f.length) found
      → Located d (f ∷ fs) pos counter found
  unfolding stream
  Located-there d f fs pos counter found le apart h l = record {
    hit = l.hit;
    from = l.from;
    within = l.within;
    has = l.has;
    apart = λ k a. l.apart k a.1;
    writes = λ q fits. (
      rw
          (
            contents-with_content_ne d (place found.0) (place f) _ (differs f l apart),
            (l.writes q fits).0,
            contents-HasFile d f h,
          )
          (let e : pos - counter ≡ length h.content + (pos - (counter + f.length)) =
              omega (arith, h.full) in
            rw e (sym (splice_second h.content (stream d fs) (pos - (counter + f.length)) q))),
      (
        record {
          content = h.content;
          stored = with_content_ne d _ (place f) _ (differs f l apart) ∙ h.stored;
          full = h.full;
        },
        (l.writes q fits).1,
      ),
    );
    reads = λ n fits.
        l.reads n fits
        ∙ rw (contents-HasFile d f h) (
            let e : pos - counter - length h.content ≡ pos - (counter + f.length) =
              omega (arith, h.full) in
            rw (drop_past h.content (stream d fs) (pos - counter) (omega (arith, h.full)), e));
  }

  pub find_file-Located :
      (d : Disk) (fs : List TorrentFile) (pos counter : ℕ) (last : TorrentFile)
      → counter ≤ pos
      → pos < counter + sum_lengths fs
      → Distinct fs
      → HasFiles d fs
      → Located d fs pos counter (find_file fs pos counter last)
  unfolding find_file sum_lengths
  find_file-Located d [] pos counter last le lt dis h = absurd (omega arith)
  find_file-Located d (f ∷ fs) pos counter last le lt dis h =
      elim (Bool-cases (ltb pos (counter + f.length))) [
        | inl here ↦ rw here (Located-here d f fs pos counter le (ground arith) dis.0 h.0 h.1)
        | inr later ↦ rw later (
            Located-there d f fs pos counter _ (ground arith) dis.0 h.0 (
              find_file-Located d fs pos (counter + f.length) f (ground arith) (omega arith) dis.1
                h.1))
      ]
