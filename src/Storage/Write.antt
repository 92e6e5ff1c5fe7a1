-- ===== src/Storage/Write.antt =====
-- Writing a piece to the files of a torrent is writing it to the text that they make together.
use torrent_client.Common.{
  ℕ, zero, suc, ◌+◌, ◌-◌, ◌*◌, ◌≤◌, ◌<◌, ◌≡◌, refl, sym, ◌∙◌, Bool, true, List, [], ◌∷◌, arith,
  Bytes, length, take, drop, take-append-drop, length-take, length-drop,
}
use torrent_client.Common.Outcome.{ok}
use torrent_client.Torrent.{TorrentFile, sum_lengths}
use torrent_client.Storage.{
  Disk, with_content, write_at, find_file, bytes_to_write, no_file, write_bytes_to_file, write_loop,
  write_piece_to_files,
}
use torrent_client.Storage.Splice.{splice, splice-splice}
use torrent_client.Storage.Layout.{
  stream, HasFile, HasFiles, Distinct, find_file-Located, length-stream,
}

-- A round writes a byte or more, no more than is left, and within the file.
bytes_to_write_bounds :
    (found : TorrentFile × ℕ × Bool) (pos len : ℕ)
    → found.2 ≡ true
    → found.1 ≤ pos
    → pos < found.1 + found.0.length
    → 0 < len
    → (0 < bytes_to_write found pos len)
      × (bytes_to_write found pos len ≤ len)
      × (pos - found.1 + bytes_to_write found pos len ≤ found.0.length)
unfolding bytes_to_write
bytes_to_write_bounds found pos len hit from lt h = ground arith

splice-nil : (s : Bytes) (o : ℕ) → splice s o [] ≡ s
unfolding splice
splice-nil s o = let e : o + 0 ≡ o = omega arith in rw e (take-append-drop o s)

-- The first `n` bytes and then the others.
splice_in_two :
    (s : Bytes) (o n : ℕ) (p : Bytes)
    → n ≤ length p
    → o + length p ≤ length s
    → splice (splice s o (take n p)) (o + n) (drop n p) ≡ splice s o p
splice_in_two s o n p le fits =
    let taken = length-take n p in
    let e : o + n ≡ o + length (take n p) = omega arith in
    rw e (
      splice-splice s o (take n p) (drop n p) (omega (arith, length-drop n p))
      ∙ rw (take-append-drop n p))

module _ (place : TorrentFile → ℕ) (files : List TorrentFile) where
  write_bytes_to_file-HasFile :
      (d : Disk) (f : TorrentFile) (h : HasFile place d f) (b : Bytes) (off : ℕ)
      → write_bytes_to_file place files d f b off
        ≡ ok (with_content d (place f) (write_at h.content off b))
  unfolding write_bytes_to_file
  write_bytes_to_file-HasFile d f h b off = rw (h.stored)

  pub write_loop-splice :
      (fuel : ℕ) (d : Disk) (pos : ℕ) (piece : Bytes)
      → length piece ≤ fuel
      → pos + length piece ≤ sum_lengths files
      → Distinct place files
      → HasFiles place d files
      → (d' : Disk) × (write_loop place files fuel d pos piece ≡ ok d')
        × (stream place d' files ≡ splice (stream place d files) pos piece)
        × HasFiles place d' files
  unfolding write_loop
  write_loop-splice fuel d pos [] hf ht dis h = (d, refl, sym (splice-nil _ pos), h)
  write_loop-splice zero d pos (x ∷ piece) hf ht dis h = absurd (omega arith)
  write_loop-splice (suc fuel) d pos (x ∷ piece) hf ht dis h =
      let p = x ∷ piece in
      let found = find_file files pos 0 no_file in
      let l = find_file-Located place d files pos 0 no_file (omega arith) (omega arith) dis h in
      let n = bytes_to_write found pos (length p) in
      let (pos_n, le_n, fits) =
        bytes_to_write_bounds found pos (length p) l.hit l.from l.within (omega arith) in
      let taken = length-take n p in
      let left = length-drop n p in
      let (wrote, kept) = l.writes (take n p) (omega arith) in
      let d₁ = with_content d (place found.0) (write_at l.has.content (pos - found.1) (take n p)) in
      let (d', runs, text, has) =
        write_loop-splice fuel d₁ (pos + n) (drop n p) (omega arith) (omega arith) dis kept in
      let start : pos - 0 ≡ pos = omega arith in
      (
        d',
        rw (write_bytes_to_file-HasFile d found.0 l.has (take n p) (pos - found.1)) runs,
        text
            ∙ rw (wrote, start)
                (splice_in_two (stream place d files) pos n p le_n
                  (omega (arith, length-stream place d files h))),
        has,
      )

  -- Where the files of the torrent are on the disk, each as long as the torrent says and no two at
  -- one place, a piece that lies within the torrent is written with no panic: the files then
  -- hold, one behind the other, what they held with the piece over it from
  -- `piece_index * piece_length` on, and have kept their lengths.
  pub write_piece_to_files-splice :
      (d : Disk) (piece_length piece_index : ℕ) (piece : Bytes)
      → piece_index * piece_length + length piece ≤ sum_lengths files
      → Distinct place files
      → HasFiles place d files
      → (d' : Disk) × (write_piece_to_files place files d piece_length piece_index piece ≡ ok d')
        × (stream place d' files ≡ splice (stream place d files) (piece_index * piece_length) piece)
        × HasFiles place d' files
  unfolding write_piece_to_files
  write_piece_to_files-splice d piece_length piece_index piece fits dis h =
      write_loop-splice (length piece) d (piece_index * piece_length) piece (omega arith) fits dis h
