-- ===== src/Storage/Read.antt =====
-- Reading a piece from the files of a torrent is reading the text that they make together.
use torrent_client.Common.{
  ℕ, zero, suc, ◌+◌, ◌-◌, ◌*◌, ◌≤◌, ◌<◌, min, ◌≡◌, refl, sym, ap, ◌∙◌, true, false, none, some,
  List, [], ◌∷◌, ◌++◌, append_assoc, append-nil, arith, ltb, Bytes, length, take, drop, length-take,
  length-drop, take_front, drop-nil, drop-drop,
}
use torrent_client.Common.Outcome.{no_fuel, ok}
use torrent_client.Torrent.{TorrentFile, sum_lengths}
use torrent_client.Storage.Splice.{drop_past, splice}
use torrent_client.Storage.{
  write_piece_to_files, Disk, read_at, find_file, no_file, read_bytes_from_file, read_loop,
  get_piece_from_file,
}
use torrent_client.Storage.Write.{write_piece_to_files-splice}
use torrent_client.Storage.Layout.{
  length-stream, stream, HasFile, HasFiles, Distinct, find_file-Located,
}

take_parts : (m n : ℕ) (s : Bytes) → m ≤ n → take n s ≡ take m s ++ take (n - m) (drop m s)
take_parts zero n s le = ap (λ k. take k s) (omega arith)
take_parts (suc m) zero s le = absurd (omega arith)
take_parts (suc m) (suc n) [] le = sym (take-nil (suc n - suc m))
  where
    take-nil : (k : ℕ) → take {A = ℕ} k [] ≡ []
    take-nil zero = refl
    take-nil (suc k) = refl
take_parts (suc m) (suc n) (x ∷ s) le =
    let e : suc n - suc m ≡ n - m = omega arith in
    rw e (ap (◌∷◌ x) (take_parts m n s (omega arith)))

-- `n` bytes from `o` on: the first `m` and those behind them
take_in_two :
    (m n o : ℕ) (s : Bytes)
    → m ≤ n
    → take n (drop o s) ≡ take m (drop o s) ++ take (n - m) (drop (o + m) s)
take_in_two m n o s le = rw (← drop-drop o m s) (take_parts m n (drop o s) le)

pub read-splice :
    (s : Bytes) (o : ℕ) (q : Bytes)
    → o + length q ≤ length s
    → take (length q) (drop o (splice s o q)) ≡ q
unfolding splice
read-splice s o q h =
    let t = take o s in
    let taken = length-take o s in
    let e : o - length t ≡ 0 = omega arith in
    rw (drop_past t (q ++ drop (o + length q) s) o (omega arith), e) (take_front q _)

module _ (place : TorrentFile → ℕ) (files : List TorrentFile) where
  read_bytes-HasFile :
      (d : Disk) (f : TorrentFile) (h : HasFile place d f) (off n : ℕ)
      → read_bytes_from_file place files d f off n ≡ some (read_at h.content off n)
  unfolding read_bytes_from_file
  read_bytes-HasFile d f h off n = rw (h.stored, read_bytes_from_file)

  length-read_at : (c : Bytes) (off n : ℕ) → length (read_at c off n) ≡ min n (length c - off)
  unfolding read_at
  length-read_at c off n = omega (arith, length-take n (drop off c), length-drop off c)

  read_at_whole :
      (c : Bytes) (off n : ℕ) → read_at c off n ≡ read_at c off (length (read_at c off n))
  unfolding read_at
  read_at_whole c off n = take_length n (drop off c)
    where
      take_length : (n : ℕ) (s : Bytes) → take n s ≡ take (length (take n s)) s
      take_length zero s = refl
      take_length (suc n) [] = refl
      take_length (suc n) (x ∷ s) = ap (◌∷◌ x) (take_length n s)

  read_loop-stream :
      (fuel : ℕ) (d : Disk) (pos n : ℕ) (got : Bytes)
      → n ≤ fuel
      → pos + n ≤ sum_lengths files
      → Distinct place files
      → HasFiles place d files
      → read_loop place files fuel d pos n got
        ≡ ok (got ++ take n (drop pos (stream place d files)), none)
  unfolding read_loop
  read_loop-stream fuel d pos zero got hf ht dis h = rw append-nil
  read_loop-stream zero d pos (suc n) got hf ht dis h = absurd (omega arith)
  read_loop-stream (suc fuel) d pos (suc n) got hf ht dis h =
      let found = find_file files pos 0 no_file in
      let l = find_file-Located place d files pos 0 no_file (omega arith) (omega arith) dis h in
      let c = l.has.content in
      let off = pos - found.1 in
      let b = read_at c off (suc n) in
      let size = length-read_at c off (suc n) in
      let start : pos - 0 ≡ pos = omega arith in
      let piece : b ≡ take (length b) (drop pos (stream place d files)) =
        read_at_whole c off (suc n)
        ∙ l.reads (length b) (omega (arith, l.has.full, l.within, l.from))
        ∙ rw start in
      let rest =
        read_loop-stream fuel d (pos + length b) (suc n - length b) (got ++ b)
          (omega (arith, l.has.full, l.within, l.from))
          (omega (arith, l.has.full, l.within, l.from)) dis h in
      let text = stream place d files in
      let more = take (suc n - length b) (drop (pos + length b) text) in
      let whole : take (suc n) (drop pos text) ≡ b ++ more =
        take_in_two (length b) (suc n) pos text (omega arith) ∙ ap (λ t. t ++ more) (sym piece) in
      rw (read_bytes-HasFile d found.0 l.has off (suc n), read_loop)
        (rest ∙ ap (λ t. ok (t, none)) (append_assoc got b more ∙ ap (λ t. got ++ t) (sym whole)))

  -- Where the files of the torrent are on the disk, each as long as the torrent says and no two at
  -- one place, `n` rounds or more are enough to read `n` bytes that lie within the torrent, and there is no
  -- error: what is read is what the files hold, one behind the other, from
  -- `piece_index * piece_length` on.
  pub get_piece_from_file-stream :
      (fuel : ℕ) (d : Disk) (piece_length piece_index n : ℕ)
      → n ≤ fuel
      → piece_index * piece_length + n ≤ sum_lengths files
      → Distinct place files
      → HasFiles place d files
      → get_piece_from_file place files fuel d piece_length piece_index n
        ≡ ok (take n (drop (piece_index * piece_length) (stream place d files)), none)
  unfolding get_piece_from_file
  get_piece_from_file-stream fuel d piece_length piece_index n enough fits dis h =
      read_loop-stream fuel d (piece_index * piece_length) n [] enough fits dis h

  -- Where the files of the torrent are on the disk, each as long as the torrent says and no two at
  -- one place, a piece that lies within the torrent is written with no panic, and reading as many
  -- bytes then gives it back, with no error.
  pub get_piece_from_file-write :
      (d : Disk) (piece_length piece_index : ℕ) (piece : Bytes)
      → piece_index * piece_length + length piece ≤ sum_lengths files
      → Distinct place files
      → HasFiles place d files
      → (d' : Disk) × (write_piece_to_files place files d piece_length piece_index piece ≡ ok d')
        × (get_piece_from_file place files (length piece) d' piece_length piece_index (length piece)
            ≡ ok (piece, none))
  get_piece_from_file-write d piece_length piece_index piece fits dis h =
      let (d', wrote, text, has) =
        write_piece_to_files-splice place files d piece_length piece_index piece fits dis h in
      let read =
        get_piece_from_file-stream (length piece) d' piece_length piece_index (length piece)
          (omega arith) fits dis has in
      (
        d',
        wrote,
        read
            ∙ ap (λ t. ok (t, none))
                (rw text (
                  read-splice (stream place d files) (piece_index * piece_length) piece
                    (omega (arith, length-stream place d files h)))),
      )

pub drop_behind : (s : Bytes) (n : ℕ) → length s ≤ n → drop n s ≡ []
drop_behind [] n h = drop-nil n
drop_behind (x ∷ s) zero h = absurd (omega arith)
drop_behind (x ∷ s) (suc n) h = drop_behind s n (omega arith)

read_behind :
    (place : TorrentFile → ℕ) (fs : List TorrentFile) (d : Disk) (f : TorrentFile) (c : Bytes)
    (off n : ℕ)
    → d (place f) ≡ some c
    → length c ≤ off
    → read_bytes_from_file place fs d f off (suc n) ≡ some []
unfolding read_at read_bytes_from_file
read_behind place fs d f c off n e h = rw (e, read_bytes_from_file) (rw (drop_behind c off h))

-- A place in a file behind others is found there.
find_file-append :
    (before : List TorrentFile) (f last : TorrentFile) (after : List TorrentFile) (off counter : ℕ)
    → off < f.length
    → find_file (before ++ (f ∷ after)) (counter + sum_lengths before + off) counter last
      ≡ (f, counter + sum_lengths before, true)
unfolding find_file sum_lengths
find_file-append [] f last after off counter h = ground arith
find_file-append (g ∷ before) f last after off counter h =
    let e : counter + (g.length + sum_lengths before) ≡ counter + g.length + sum_lengths before =
      omega arith in
    let later : ltb (counter + g.length + sum_lengths before + off) (counter + g.length) ≡ false =
      ground arith in
    rw (e, later) (find_file-append before f g after off (counter + g.length) h)

-- The read never comes to an end in a file that is shorter on the disk than the torrent says,
-- whatever files are in front of it and behind it: from a position in the file at which the disk has
-- nothing any more, it goes on in any number of rounds.
pub read_loop_short :
    (place : TorrentFile → ℕ) (before : List TorrentFile) (f : TorrentFile)
    (after : List TorrentFile) (d : Disk) (c got : Bytes) (fuel off n : ℕ)
    → d (place f) ≡ some c
    → length c ≤ off
    → off < f.length
    → 0 < n
    → read_loop place (before ++ (f ∷ after)) fuel d (sum_lengths before + off) n got ≡ no_fuel
unfolding read_loop
read_loop_short place before f after d c got fuel off zero e short lt h = absurd (omega arith)
read_loop_short place before f after d c got zero off (suc n) e short lt h = refl
read_loop_short place before f after d c got (suc fuel) off (suc n) e short lt h =
    let start = sum_lengths before in
    let front : 0 + start ≡ start = omega arith in
    let found : find_file (before ++ (f ∷ after)) (start + off) 0 no_file ≡ (f, start, true) =
      rw front at (find_file-append before f no_file after off 0 lt) in
    let within : start + off - start ≡ off = omega arith in
    let still : start + off + 0 ≡ start + off = omega arith in
    let files = before ++ (f ∷ after) in
    rw (found, within, read_behind place files d f c off n e short, read_loop, still)
      (read_loop_short place before f after d c (got ++ []) fuel off (suc n - 0) e short lt
        (omega arith))
