-- ===== src/Torrent/Codec/Hash.antt =====
-- The two functions that calculate an info hash, `CalcInfoHash` of pkg/util/file.go, which reads a
-- torrent file, and that of `TorrentInfo` (pkg/torrent/common.go).
use torrent_client.Common.{
  ℕ, zero, suc, ◌≡◌, refl, sym, ap, ◌∙◌, inl, inr, true, Option, none, some, List, [], ◌∷◌, arith,
  ltb, Bool-cases, Bytes, codes,
}
use torrent_client.Bencode.Value.{eq_bytes, Value, Items, Fields, lookup}
use torrent_client.Common.Int.{ℤ}
use torrent_client.Bencode.Encode.{encode, encode_list, sort_keys, lt_bytes}
use torrent_client.Bencode.Decode.{decode}
use torrent_client.Bencode.Normal.{
  norm, norm_dict, Encodable, EncodableFields, lookup-norm_dict, map_option,
}
use torrent_client.Bencode.RoundTrip.{decode-encode}
use torrent_client.Bencode.Stable.{encode-norm}
use torrent_client.Common.Outcome.{ok}
use torrent_client.Torrent.{TorrentFile, TorrentInfo}
use torrent_client.Torrent.Codec.{
  path_items, to_bencode_dict, file_items, files_field, info_dict, to_bencoded_string,
  calc_info_hash, hash_info, calc_file_info_hash,
}

fields_of : {fs : Fields} → Encodable (Value.dict fs) → EncodableFields fs
fields_of (Encodable.dict es) = es

-- The info dictionary of a torrent as a torrent file has it: the keys that the format gives, in their
-- order, and texts as bytes.
abbrev pub path_list : List Bytes → Items
path_list [] = Items.nil
path_list (p ∷ ps) = Items.cons (Value.bytes p) (path_list ps)

abbrev pub file_entries : List TorrentFile → Items
file_entries [] = Items.nil
file_entries (f ∷ fs) =
    Items.cons
      (Value.dict (
        Fields.field (codes "length") (Value.int (ℤ.pos f.length))
          (Fields.field (codes "path") (Value.list (path_list f.path)) Fields.end)))
      (file_entries fs)

abbrev with_length : ℕ → Fields → Fields
with_length zero fs = fs
with_length (suc n) fs = Fields.field (codes "length") (Value.int (ℤ.pos (suc n))) fs

abbrev with_files : List TorrentFile → Fields → Fields
with_files [] fs = fs
with_files (f ∷ files) fs = Fields.field (codes "files") (Value.list (file_entries (f ∷ files))) fs

abbrev pub info_entries : TorrentInfo → Fields
info_entries ti = with_files ti.files (
    with_length ti.length (
      Fields.field (codes "name") (Value.bytes ti.name) (
        Fields.field (codes "piece length") (Value.int (ℤ.pos ti.piece_length))
          (Fields.field (codes "pieces") (Value.bytes ti.pieces) Fields.end))))

encode_list-path_items :
    (ps : List Bytes) → encode_list (path_items ps) ≡ encode_list (path_list ps)
unfolding encode path_items
encode_list-path_items [] = refl
encode_list-path_items (p ∷ ps) = rw (encode_list-path_items ps)

encode_list-file_items :
    (fs : List TorrentFile) → encode_list (file_items fs) ≡ encode_list (file_entries fs)
unfolding encode file_items to_bencode_dict
encode_list-file_items [] = refl
encode_list-file_items (f ∷ fs) = rw (encode_list-file_items fs, encode_list-path_items f.path)

-- `ToBencodedString` writes this dictionary.
encode-info_dict :
    (name pieces : Bytes) (len piece_length : ℕ) (files : List TorrentFile)
    → let ti : TorrentInfo = record {
      name = name;
      length = len;
      piece_length = piece_length;
      pieces = pieces;
      files = files;
    } in
      encode (Value.dict (info_dict ti)) ≡ encode (Value.dict (info_entries ti))
unfolding encode info_dict files_field sort_keys lt_bytes
encode-info_dict name pieces zero piece_length [] = refl
encode-info_dict name pieces zero piece_length (f ∷ fs) = rw (encode_list-file_items (f ∷ fs))
encode-info_dict name pieces (suc n) piece_length [] =
    let one : ltb 0 (suc n) ≡ true = ground arith in rw one
encode-info_dict name pieces (suc n) piece_length (f ∷ fs) =
    let one : ltb 0 (suc n) ≡ true = ground arith in rw (one, encode_list-file_items (f ∷ fs))

some-injective : {u v : Value} → some u ≡ some v → u ≡ v
some-injective e = cc

-- What stands in a map that is encoded is encoded too.
lookup-Encodable :
    (k : Bytes) (fs : Fields) (v : Value) → EncodableFields fs → lookup k fs ≡ some v → Encodable v
unfolding lookup
lookup-Encodable k Fields.end v es h = cc
lookup-Encodable k (Fields.field k' u fs) v (EncodableFields.field a b e es) h =
    elim (Bool-cases (eq_bytes k' k)) [
      | inl here ↦ let h' = rw here at h in let same = some-injective h' in rw (sym same) e
      | inr other ↦ let h' = rw other at h in lookup-Encodable k fs v es h'
    ]

module _ (sha1 : Bytes → Bytes) where
  calc_info_hash-written :
      (ti : TorrentInfo) (b : Bytes)
      → to_bencoded_string ti ≡ some b
      → calc_info_hash sha1 ti ≡ some (sha1 b)
  unfolding calc_info_hash
  calc_info_hash-written ti b h =
      ap (λ o. elim o as (λ x. Option Bytes) [ none ↦ none | some c ↦ some (sha1 c) ]) h

  hash_info-written :
      (fs : Fields) (v : Value) (b : Bytes)
      → lookup (codes "info") fs ≡ some v
      → encode v ≡ some b
      → hash_info sha1 (Value.dict fs) ≡ ok (sha1 b)
  unfolding hash_info
  hash_info-written fs v b found h = rw (hash_info, found, h)

  calc_file_info_hash-read :
      (spare content : Bytes) (v : Value)
      → decode spare content ≡ ok v
      → calc_file_info_hash sha1 spare content ≡ hash_info sha1 v
  unfolding calc_file_info_hash
  calc_file_info_hash-read spare content v h = rw (calc_file_info_hash, h)

  -- The info hash that is calculated from a torrent file is the one that is calculated from the
  -- torrent: for a file that `Encode` wrote for a map with the torrent's entries under "info" and no
  -- other key there, whatever else the map has, and whatever the spare capacity behind the file
  -- holds. The entries are the keys of the format: "files" where there are any, "length" where it
  -- is not 0, "name", "piece length" and "pieces". The numbers and lengths are in the range of
  -- `int`, and no list or map is empty.
  pub calc_file_info_hash-calc_info_hash :
      (spare : Bytes) (ti : TorrentInfo) (file : Fields)
      → Encodable (Value.dict file)
      → lookup (codes "info") file ≡ some (Value.dict (info_entries ti))
      → (content : Bytes) × (hash : Bytes) × (encode (Value.dict file) ≡ some content)
        × (calc_file_info_hash sha1 spare content ≡ ok hash)
        × (calc_info_hash sha1 ti ≡ some hash)
  unfolding to_bencoded_string norm norm_dict
  calc_file_info_hash-calc_info_hash spare ti file e has =
      let entries = Value.dict (info_entries ti) in
      let e_info = lookup-Encodable (codes "info") file entries (fields_of e) has in
      let (content, written, reads) = decode-encode spare e in
      let (info, info_written, info_reads) = decode-encode spare e_info in
      let found = lookup-norm_dict (codes "info") file (fields_of e) ∙ ap (map_option norm) has in
      (
        content,
        sha1 info,
        written,
        calc_file_info_hash-read spare content (norm (Value.dict file)) reads
            ∙ hash_info-written (norm_dict file) (norm entries) info found
                (encode-norm e_info ∙ info_written),
        calc_info_hash-written ti info
            (encode-info_dict ti.name ti.pieces ti.length ti.piece_length ti.files ∙ info_written),
      )
