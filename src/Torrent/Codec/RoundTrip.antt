-- ===== src/Torrent/Codec/RoundTrip.antt =====
-- An info dictionary, written and read (pkg/torrent/common.go).
use torrent_client.Common.{
  ℕ, zero, suc, ◌≤◌, ◌<◌, ◌≡◌, refl, inl, inr, true, false, Option, none, some, List, [], ◌∷◌, map,
  arith, ltb, if◌then◌else◌, Bool-cases, Bytes, codes, length, All,
}
use torrent_client.Common.Int.{ℤ, IsInt, max_int}
use torrent_client.Common.Outcome.{ok}
use torrent_client.Bencode.Value.{Value, Fields, lookup, eq_bytes}
use torrent_client.Bencode.Decode.{decode}
use torrent_client.Bencode.Normal.{
  norm, norm_dict, norm_items, AbsentField, Encodable, EncodableItems, EncodableFields,
  lookup-norm_dict, map_option,
}
use torrent_client.Bencode.RoundTrip.{decode-encode}
use torrent_client.Torrent.{TorrentFile, TorrentInfo}
use torrent_client.Torrent.Codec.{
  DecodedFile, DecodedInfo, name_of, length_of, read_path, read_file, read_files, files_of,
  new_torrent_info, path_items, to_bencode_dict, file_items, files_field, info_dict,
  to_bencoded_string,
}

-- a torrent that can be written: numbers and lengths in the range of `int`, a path for each file
pub record WritableFile (f : TorrentFile) : Type 0 where
  pub size : IsInt (ℤ.pos f.length)
  pub path : All (λ p. length p ≤ max_int) f.path
  pub some_path : 0 < length f.path

pub record Writable (ti : TorrentInfo) : Type 0 where
  pub name : length ti.name ≤ max_int
  pub size : IsInt (ℤ.pos ti.length)
  pub piece_length : IsInt (ℤ.pos ti.piece_length)
  pub pieces : length ti.pieces ≤ max_int
  pub files : All WritableFile ti.files

-- what the decoded record is to be
abbrev pub decoded_file : TorrentFile → DecodedFile
decoded_file f = record { length = ℤ.pos f.length; path = f.path }

abbrev pub decoded : TorrentInfo → DecodedInfo
decoded ti = record {
  name = ti.name;
  length = ℤ.pos ti.length;
  piece_length = ℤ.pos ti.piece_length;
  pieces = ti.pieces;
  files = map decoded_file ti.files;
}

path_items-Encodable :
    (ps : List Bytes) → All (λ p. length p ≤ max_int) ps → EncodableItems (path_items ps)
unfolding path_items
path_items-Encodable [] h = EncodableItems.nil
path_items-Encodable (p ∷ ps) h =
    EncodableItems.cons (Encodable.str (h.0)) (path_items-Encodable ps (h.1))

path_list-Encodable :
    (ps : List Bytes)
    → All (λ p. length p ≤ max_int) ps
    → 0 < length ps
    → Encodable (Value.list (path_items ps))
unfolding path_items
path_list-Encodable [] h lt = absurd (omega arith)
path_list-Encodable (p ∷ ps) h lt =
    Encodable.list (Encodable.str (h.0)) (path_items-Encodable ps (h.1))

file_fields-Encodable : (f : TorrentFile) → WritableFile f → EncodableFields (to_bencode_dict f)
unfolding to_bencode_dict eq_bytes
file_fields-Encodable f w =
    EncodableFields.field (omega arith) (refl, tt) (Encodable.int (w.size))
      (EncodableFields.field (omega arith) tt (path_list-Encodable f.path (w.path) (w.some_path))
        EncodableFields.end)

file_dict-Encodable :
    (f : TorrentFile) → WritableFile f → Encodable (Value.dict (to_bencode_dict f))
unfolding to_bencode_dict
file_dict-Encodable f w = Encodable.dict (file_fields-Encodable f w)

file_items-Encodable :
    (fs : List TorrentFile) → All WritableFile fs → EncodableItems (file_items fs)
unfolding file_items
file_items-Encodable [] h = EncodableItems.nil
file_items-Encodable (f ∷ fs) h =
    EncodableItems.cons (file_dict-Encodable f (h.0)) (file_items-Encodable fs (h.1))

files_field-Encodable :
    (fs : List TorrentFile) → All WritableFile fs → EncodableFields (files_field fs)
unfolding files_field file_items
files_field-Encodable [] h = EncodableFields.end
files_field-Encodable (f ∷ fs) h =
    EncodableFields.field (omega arith) tt
      (Encodable.list (file_dict-Encodable f (h.0)) (file_items-Encodable fs (h.1)))
      EncodableFields.end

files_field-Absent :
    (k : Bytes) (fs : List TorrentFile)
    → eq_bytes (codes "files") k ≡ false
    → AbsentField k (files_field fs)
unfolding files_field
files_field-Absent k [] h = tt
files_field-Absent k (f ∷ fs) h = (h, tt)

info_dict-Encodable : (ti : TorrentInfo) → Writable ti → EncodableFields (info_dict ti)
unfolding info_dict eq_bytes
info_dict-Encodable ti w =
    let files = files_field-Encodable ti.files (w.files) in
    let absent = λ (k : Bytes). files_field-Absent k ti.files in
    elim (Bool-cases (ltb 0 ti.length)) [
      | inl one ↦ rw one (
          EncodableFields.field (omega arith) (refl, (refl, (refl, absent (codes "name") refl)))
            (Encodable.str (w.name))
            (EncodableFields.field (omega arith) (refl, (refl, absent (codes "piece length") refl))
              (Encodable.int (w.piece_length))
              (EncodableFields.field (omega arith) (refl, absent (codes "pieces") refl)
                (Encodable.bytes (w.pieces))
                (EncodableFields.field (omega arith) (absent (codes "length") refl)
                  (Encodable.int (w.size)) files))))
      | inr several ↦ rw several (
          EncodableFields.field (omega arith) (refl, (refl, absent (codes "name") refl))
            (Encodable.str (w.name))
            (EncodableFields.field (omega arith) (refl, absent (codes "piece length") refl)
              (Encodable.int (w.piece_length))
              (EncodableFields.field (omega arith) (absent (codes "pieces") refl)
                (Encodable.bytes (w.pieces)) files)))
    ]

pub info-Encodable : (ti : TorrentInfo) → Writable ti → Encodable (Value.dict (info_dict ti))
unfolding info_dict
info-Encodable ti w = Encodable.dict (info_dict-Encodable ti w)

read_path-norm : (ps : List Bytes) → read_path (norm_items (path_items ps)) ≡ ok ps
unfolding read_path path_items norm
read_path-norm [] = refl
read_path-norm (p ∷ ps) = rw (read_path-norm ps)

read_file-norm :
    (f : TorrentFile)
    → WritableFile f
    → read_file (norm (Value.dict (to_bencode_dict f))) ≡ ok (decoded_file f)
unfolding read_file norm norm_dict to_bencode_dict lookup eq_bytes
read_file-norm f w =
    let e = file_fields-Encodable f w in
    rw (
      lookup-norm_dict (codes "path") (to_bencode_dict f) e,
      lookup-norm_dict (codes "length") (to_bencode_dict f) e,
      read_path-norm f.path,
    )

read_files-norm :
    (fs : List TorrentFile)
    → All WritableFile fs
    → read_files (norm_items (file_items fs)) ≡ ok (map decoded_file fs)
unfolding read_files file_items norm
read_files-norm [] h = refl
read_files-norm (f ∷ fs) h = rw (read_file-norm f (h.0), read_files-norm fs (h.1))

-- the entry of the files
abbrev info_list : List TorrentFile → Option Value
info_list [] = none
info_list (f ∷ fs) = some (Value.list (file_items (f ∷ fs)))

lookup-files_field :
    (k : Bytes) (fs : List TorrentFile)
    → lookup k (files_field fs) ≡ (if eq_bytes (codes "files") k then info_list fs else none)
unfolding files_field lookup
lookup-files_field k [] = ground arith
lookup-files_field k (f ∷ fs) = refl

files_of-norm :
    (fs : List TorrentFile)
    → All WritableFile fs
    → files_of (map_option norm (info_list fs)) ≡ ok (map decoded_file fs)
unfolding files_of norm
files_of-norm [] h = refl
files_of-norm (f ∷ fs) h = read_files-norm (f ∷ fs) h

lookup-info_dict :
    (ti : TorrentInfo)
    → (lookup (codes "name") (info_dict ti) ≡ some (Value.str ti.name))
      × (lookup (codes "piece length") (info_dict ti) ≡ some (Value.int (ℤ.pos ti.piece_length)))
      × (lookup (codes "pieces") (info_dict ti) ≡ some (Value.bytes ti.pieces))
      × (lookup (codes "length") (info_dict ti)
          ≡ (if ltb 0 ti.length then some (Value.int (ℤ.pos ti.length)) else none))
      × (lookup (codes "files") (info_dict ti) ≡ info_list ti.files)
unfolding info_dict lookup eq_bytes
lookup-info_dict ti =
    let f = λ (k : Bytes). lookup-files_field k ti.files in
    elim (Bool-cases (ltb 0 ti.length)) [
      | inl one ↦ rw one (refl, refl, refl, refl, f (codes "files"))
      | inr several ↦ rw several (refl, refl, refl, f (codes "length"), f (codes "files"))
    ]

length_of-norm :
    (n : ℕ)
    → length_of (map_option norm (if ltb 0 n then some (Value.int (ℤ.pos n)) else none))
      ≡ ok (ℤ.pos n)
unfolding length_of norm
length_of-norm zero = refl
length_of-norm (suc n) = let h : ltb 0 (suc n) ≡ true = ground arith in rw h

new_torrent_info-norm :
    (ti : TorrentInfo) → Writable ti → new_torrent_info (norm_dict (info_dict ti)) ≡ ok (decoded ti)
unfolding new_torrent_info name_of norm
new_torrent_info-norm ti w =
    let e = info_dict-Encodable ti w in
    let found = λ (k : Bytes). lookup-norm_dict k (info_dict ti) e in
    let (name, piece_length, pieces, size, files) = lookup-info_dict ti in
    rw (
      found (codes "name"),
      found (codes "piece length"),
      found (codes "pieces"),
      found (codes "length"),
      found (codes "files"),
      name,
      piece_length,
      pieces,
      size,
      files,
      length_of-norm ti.length,
      files_of-norm ti.files (w.files),
    )

-- The info dictionary of a torrent is written without an error, and read back: `Decode` makes it a
-- map, and `NewTorrentInfoFromBencodedDict` finds in it each field of the torrent. The numbers and
-- lengths of the torrent are in the range of `int`, and each file has a path.
pub new_torrent_info-to_bencoded_string :
    (spare : Bytes) (ti : TorrentInfo)
    → Writable ti
    → (b : Bytes) × (dict : Fields) × (to_bencoded_string ti ≡ some b)
      × (decode spare b ≡ ok (Value.dict dict))
      × (new_torrent_info dict ≡ ok (decoded ti))
unfolding to_bencoded_string norm norm_dict
new_torrent_info-to_bencoded_string spare ti w =
    let (b, written, reads) = decode-encode spare (info-Encodable ti w) in
    (b, norm_dict (info_dict ti), written, reads, new_torrent_info-norm ti w)
