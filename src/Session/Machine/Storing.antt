-- ===== src/Session/Machine/Storing.antt =====
-- What the disk holds once a downloaded piece is stored
-- (pkg/torrent/torrentsession.go).
use torrent_client.Common.{
  ℕ, ◌+◌, ◌*◌, ◌≤◌, ◌<◌, ◌≡◌, refl, sym, ◌∙◌, inl, inr, Bool, true, false, ◌||◌, [], ◌∷◌, arith,
  leb, ◌==◌, Bool-cases, Bytes, length, take, drop,
}
use torrent_client.Bencode.Value.{eq_bytes}
use torrent_client.Bitfield.{set_piece}
use torrent_client.Cache.{piece_size}
use torrent_client.Cache.Transparent.{piece_size-le}
use torrent_client.Common.Outcome.{Outcome, ok}
use torrent_client.Session.{verify_piece, write_piece_to_file}
use torrent_client.Session.Machine.{Session, finish_piece}
use torrent_client.Session.Machine.Rewrite.{on_disk-write}
use torrent_client.Session.Startup.Verified.{on_disk}
use torrent_client.Storage.{Disk, write_piece_to_files}
use torrent_client.Storage.Layout.{HasFiles, Distinct, stream, length-stream}
use torrent_client.Storage.Write.{write_piece_to_files-splice}
use torrent_client.Torrent.{
  TorrentFile, TorrentInfo, get_num_pieces, get_total_length, get_piece_hash, is_single_file,
  sum_lengths,
}

eq_bytes_sym : (a b : Bytes) → eq_bytes a b ≡ eq_bytes b a
unfolding eq_bytes
eq_bytes_sym [] [] = refl
eq_bytes_sym [] (y ∷ b) = refl
eq_bytes_sym (x ∷ a) [] = refl
eq_bytes_sym (x ∷ a) (y ∷ b) = ground (arith, eq_bytes_sym a b)

-- A torrent of several files that can be downloaded.
pub record Multi (place : TorrentFile → ℕ) (ti : TorrentInfo) : Type 0 where
  pub several : ti.length ≡ 0
  pub cut : 0 < ti.piece_length
  pub hashes : 20 * get_num_pieces ti ≤ length ti.pieces
  pub apart : Distinct place ti.files

pub total-Multi :
    (place : TorrentFile → ℕ) (ti : TorrentInfo)
    → Multi place ti
    → get_total_length ti ≡ sum_lengths ti.files
unfolding get_total_length
total-Multi place ti m = rw (m.several)

module _ (sha1 : Bytes → Bytes) (place : TorrentFile → ℕ) (path : ℕ) (ti : TorrentInfo) where
  -- What a piece that was stored leaves behind.
  pub record Stored (s : Session) (k : ℕ) (piece : Bytes) (s' : Session) : Type 0 where
    pub disk : Disk
    pub is : s' ≡ record s { disk = disk; piece_bit_field = set_piece s.piece_bit_field k }
    pub has : HasFiles place disk ti.files
    pub pieces :
        (j : ℕ)
        → j < get_num_pieces ti
        → on_disk sha1 place disk ti j ≡ (j == k || on_disk sha1 place s.disk ti j)

  module _ (m : Multi place ti) where
    open m use {several, cut, hashes, apart}

    hash_of :
        (k : ℕ)
        → k < get_num_pieces ti
        → get_piece_hash ti k ≡ ok (take 20 (drop (20 * k) ti.pieces))
    unfolding get_piece_hash
    hash_of k h =
        let inside : leb (20 * (k + 1)) (length ti.pieces) ≡ true = ground arith in rw inside

    verify_piece_lem :
        (k : ℕ) (piece : Bytes)
        → k < get_num_pieces ti
        → verify_piece sha1 ti k piece
          ≡ ok (eq_bytes (sha1 piece) (take 20 (drop (20 * k) ti.pieces)))
    unfolding verify_piece
    verify_piece_lem k piece h = rw (hash_of k h)

    write_piece_to_file-multi :
        (disk : Disk) (k : ℕ) (piece : Bytes)
        → write_piece_to_file place path disk ti k piece
          ≡ write_piece_to_files place ti.files disk ti.piece_length k piece
    unfolding write_piece_to_file is_single_file
    write_piece_to_file-multi disk k piece = rw several

    finish_piece-right :
        (s : Session) (k : ℕ) (piece : Bytes) (d' : Disk)
        → k < get_num_pieces ti
        → eq_bytes (sha1 piece) (take 20 (drop (20 * k) ti.pieces)) ≡ true
        → write_piece_to_files place ti.files s.disk ti.piece_length k piece ≡ ok d'
        → finish_piece sha1 place path ti s k piece
          ≡ ok (record s { disk = d'; piece_bit_field = set_piece s.piece_bit_field k }, true)
    unfolding finish_piece
    finish_piece-right s k piece d' lt valid wrote =
        rw (verify_piece_lem k piece lt, valid, write_piece_to_file-multi s.disk k piece, wrote)

    finish_piece-wrong :
        (s : Session) (k : ℕ) (piece : Bytes)
        → k < get_num_pieces ti
        → eq_bytes (sha1 piece) (take 20 (drop (20 * k) ti.pieces)) ≡ false
        → finish_piece sha1 place path ti s k piece ≡ ok (s, false)
    unfolding finish_piece
    finish_piece-wrong s k piece lt wrong = rw (verify_piece_lem k piece lt, wrong)

    pub finish_piece-Stored :
        (s : Session) (k : ℕ) (piece : Bytes) (s' : Session)
        → k < get_num_pieces ti
        → length piece ≡ piece_size ti k
        → HasFiles place s.disk ti.files
        → finish_piece sha1 place path ti s k piece ≡ ok (s', true)
        → Stored s k piece s'
    finish_piece-Stored s k piece s' lt size has e =
        let total = total-Multi place ti m in
        let all : length (stream place s.disk ti.files) ≡ get_total_length ti =
          length-stream place s.disk ti.files has ∙ sym total in
        let hash = take 20 (drop (20 * k) ti.pieces) in
        elim (Bool-cases (eq_bytes (sha1 piece) hash)) [
          | inr wrong ↦ absurd (not_both s s' (sym (finish_piece-wrong s k piece lt wrong) ∙ e))
          | inl valid ↦
              let (d', wrote, text, has') =
                write_piece_to_files-splice place ti.files s.disk ti.piece_length k piece
                  (omega (arith, piece_size-le ti k cut lt, size, total)) apart has in
              record {
                disk = d';
                is = same s' _ (sym e ∙ finish_piece-right s k piece d' lt valid wrote);
                has = has';
                pieces =
                    on_disk-write sha1 place ti s.disk d' k piece cut lt size all text
                      (eq_bytes_sym hash (sha1 piece) ∙ valid);
              }
        ]
      where
        not_both :
            (s s' : Session)
            → ◌≡◌ {A = Outcome (Session × Bool)} (ok (s, false)) (ok (s', true))
            → ⊥
        not_both s s' e = cc

        same :
            (s t : Session)
            → ◌≡◌ {A = Outcome (Session × Bool)} (ok (s, true)) (ok (t, true))
            → s ≡ t
        same s t e = cc
