-- ===== src/Create/Seeding.antt =====
-- The hashes of a created torrent (pkg/torrent/util.go), and the check of a session on them
-- (pkg/torrent/torrentsession.go).
use torrent_client.Common.{
  ℕ, zero, suc, ◌*◌, ◌≤◌, ◌<◌, ◌≡◌, refl, sym, ap, ◌∙◌, true, some, List, [], ◌∷◌, map, arith,
  Bytes, length,
}
use torrent_client.Bencode.Encode.Sorting.{eq_bytes_iff}
use torrent_client.Bitfield.{ThreadSafeBitfield}
use torrent_client.Common.Outcome.{Outcome, ok}
use torrent_client.Create.{get_file_piece_hashes}
use torrent_client.Create.Hashes.{Hashes, hash_loop-Hashes}
use torrent_client.Session.{got_all_pieces}
use torrent_client.Session.Pieces.{got_all_pieces_iff}
use torrent_client.Session.Startup.{initialize_bit_field}
use torrent_client.Session.Startup.Filling.{text, scan, length-map-some}
use torrent_client.Session.Startup.Verified.{
  opened, read_piece, on_disk, initialize_bit_field-on_disk,
}
use torrent_client.Storage.{Disk}
use torrent_client.Storage.Layout.{HasFiles, stream, length-stream}
use torrent_client.Torrent.{TorrentFile, TorrentInfo, get_num_pieces, get_total_length, sum_lengths}
use torrent_client.Torrent.Pieces.{get_num_pieces-lower}

module _ (sha1 : Bytes → Bytes) (size : (b : Bytes) → length (sha1 b) ≡ 20)
    (place : TorrentFile → ℕ) (d : Disk) (name : Bytes) (piece_length : ℕ)
    (files : List TorrentFile) where
  -- the torrent of the files with these hashes
  abbrev pub created : (hashes : Bytes) → TorrentInfo
  created hashes = record {
    name = name;
    length = 0;
    piece_length = piece_length;
    pieces = hashes;
    files = files;
  }

  module _ (cut : 0 < piece_length) (some_file : 0 < length files)
      (has : HasFiles place d files) where
    files-Hashes :
        (fuel : ℕ) (texts : List Bytes)
        → length (text [] texts) < fuel
        → 0 < length texts
        → Hashes sha1 size piece_length cut
            (text [] texts)
            (get_file_piece_hashes sha1 fuel (map some texts) piece_length)
    unfolding get_file_piece_hashes text
    files-Hashes fuel [] h lt = absurd (omega arith)
    files-Hashes fuel (c ∷ cs) h lt =
        hash_loop-Hashes sha1 size piece_length cut fuel (scan c cs) (text [] (c ∷ cs)) h
          (record { front = c; others = cs; scans = refl; reads = refl })

    total : (hashes : Bytes) → get_total_length (created hashes) ≡ length (stream place d files)
    unfolding get_total_length
    total hashes = sym (length-stream place d files has)

    in_text :
        (hashes : Bytes) (i : ℕ)
        → i < get_num_pieces (created hashes)
        → i * piece_length < length (stream place d files)
    in_text hashes i lt =
        let l = get_num_pieces-lower (created hashes) i cut lt in omega (arith, total hashes)

    -- each piece has its hash
    all_right :
        (r : Outcome Bytes) (h : Hashes sha1 size piece_length cut (stream place d files) r) (i : ℕ)
        → i < get_num_pieces (created h.hashes)
        → on_disk sha1 place d (created h.hashes) i ≡ true
    unfolding on_disk
    all_right r h i lt = (eq_bytes_iff _ _).1 (
        (h.each i (in_text h.hashes i lt)).0
        ∙ ap sha1 (read_piece sha1 place d (created h.hashes) cut (sym (total h.hashes)) i lt))

    enough_hashes :
        (r : Outcome Bytes) (h : Hashes sha1 size piece_length cut (stream place d files) r)
        → 20 * get_num_pieces (created h.hashes) ≤ length h.hashes
    enough_hashes r h = up_to (get_num_pieces (created h.hashes)) refl
      where
        up_to : (n : ℕ) → n ≡ get_num_pieces (created h.hashes) → 20 * n ≤ length h.hashes
        up_to zero e = omega arith
        up_to (suc n) e = omega (arith, (h.each n (in_text h.hashes n (omega arith))).1)

    -- For files on the disk with the lengths that the torrent gives, one file or more, a positive
    -- piece length, and a hash function with hashes of 20 bytes: `getFilePieceHashes` comes to an
    -- end with no error, in as many rounds as the files have bytes and one, and a session over the
    -- torrent with these hashes, when it checks the same files, has all its pieces.
    pub get_file_piece_hashes-seeds :
        (fuel : ℕ)
        → sum_lengths files < fuel
        → (hashes : Bytes) × (get_file_piece_hashes sha1 fuel
              (map (λ f. d (place f)) files)
              piece_length
            ≡ ok hashes)
          × (bf : ThreadSafeBitfield) × (initialize_bit_field sha1
                (created hashes)
                (map (λ f. d (place f)) files)
              ≡ ok bf)
          × (got_all_pieces (created hashes) bf ≡ true)
    get_file_piece_hashes-seeds fuel h =
        let o = opened sha1 place d (created []) files has in
        let few : length (map some o.texts) ≡ length files = rw (← o.opens) (length-map files) in
        let run : Hashes sha1 size piece_length cut (stream place d files)
            (get_file_piece_hashes sha1 fuel (map (λ f. d (place f)) files) piece_length) =
          rw (o.opens, ← o.joins)
            (files-Hashes fuel o.texts
              (omega (arith, ap length o.joins, length-stream place d files has))
              (omega (arith, few, length-map-some o.texts))) in
        let ti = created run.hashes in
        let (bf, finds, right, bytes, wide) =
          initialize_bit_field-on_disk sha1 place d ti cut
            (total run.hashes ∙ length-stream place d files has) (enough_hashes _ run) some_file
            has in
        (
          run.hashes,
          run.made,
          bf,
          finds,
          (got_all_pieces_iff ti bf).1 (λ i lt. right i lt ∙ all_right _ run i lt),
        )
      where
        length-map : (fs : List TorrentFile) → length (map (λ f. d (place f)) fs) ≡ length fs
        length-map [] = refl
        length-map (f ∷ fs) = omega (arith, length-map fs)
