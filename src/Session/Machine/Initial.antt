-- ===== src/Session/Machine/Initial.antt =====
-- What a session has after `initialize`.
use torrent_client.Common.{ℕ, ◌<◌, ◌≡◌, true, some, ◌==◌, Bytes, length, All}
use torrent_client.Bitfield.{ThreadSafeBitfield, safe_has_piece}
use torrent_client.Common.Outcome.{ok}
use torrent_client.Session.Machine.Storing.{Multi, total-Multi}
use torrent_client.Session.Startup.{initialize, initialize_for_multiple_files, initialize_bit_field}
use torrent_client.Session.Startup.Created.{Ready, initialize_files-Made}
use torrent_client.Session.Startup.Verified.{on_disk, found, initialize_bit_field-on_disk}
use torrent_client.Storage.{Disk}
use torrent_client.Storage.Layout.{HasFiles}
use torrent_client.Torrent.{TorrentFile, TorrentInfo, get_num_pieces}

module _ (sha1 : Bytes → Bytes) (place : TorrentFile → ℕ) (path : ℕ) (ti : TorrentInfo) where
  -- What a session starts with: each file has its length, no file that was there has changed, and
  -- the check has found the pieces.
  pub record Starts (d : Disk) : Type 0 where
    pub disk : Disk
    pub bits : ThreadSafeBitfield
    pub starts : initialize sha1 place path d ti ≡ ok (disk, bits)
    pub has : HasFiles place disk ti.files
    pub kept : (k : ℕ) (c : Bytes) → d k ≡ some c → disk k ≡ some c
    pub checked : initialize_bit_field sha1 ti (found sha1 place disk ti ti.files) ≡ ok bits
    pub right :
        (i : ℕ) → i < get_num_pieces ti → safe_has_piece bits i ≡ on_disk sha1 place disk ti i

  -- For a torrent of several files at different places, with a positive piece length, and a hash
  -- for each piece, on a disk where each file is missing or has its length, directories aside:
  -- `initialize` comes to an end with no error and no panic, makes the missing files, changes none that was there, and
  -- the bitfield has exactly those pieces that the files then hold with the right hash.
  pub initialize-Starts :
      (d : Disk) → Multi place ti → 0 < length ti.files → All (Ready place d) ti.files → Starts d
  unfolding initialize initialize_for_multiple_files
  initialize-Starts d m some_file ready =
      let several : (ti.length == 0) ≡ true = rw (m.several) in
      let made = initialize_files-Made place d ti.files (m.apart) ready in
      let (bits, finds, right, bytes, wide) =
        initialize_bit_field-on_disk sha1 place made.disk ti (m.cut) (total-Multi place ti m)
          (m.hashes) some_file made.good in
      record {
        disk = made.disk;
        bits = bits;
        starts = rw (several, made.made, finds);
        has = made.good;
        kept = made.kept;
        checked = finds;
        right = right;
      }
