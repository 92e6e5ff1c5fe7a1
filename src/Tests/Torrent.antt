-- ===== src/Tests/Torrent.antt =====
-- The info dictionary of the torrent of the storage tests.
use torrent_client.Common.Int.{ℤ, IsInt, max_int}
use torrent_client.Common.{ℕ, ◌≤◌, ◌≡◌, refl, some, [], ◌∷◌, arith, Bytes, codes, length}
use torrent_client.Bencode.Decode.{decode}
use torrent_client.Bencode.Value.{lookup, eq_bytes, Value, Fields}
use torrent_client.Common.Outcome.{ok}
use torrent_client.Bencode.Encode.{encode}
use torrent_client.Bencode.Normal.{Encodable, EncodableItems, EncodableFields}
use torrent_client.Tests.Machine.{pad}
use torrent_client.Torrent.Codec.{
  calc_info_hash, calc_file_info_hash, new_torrent_info, to_bencoded_string,
}
use torrent_client.Torrent.Codec.Hash.{
  path_list, file_entries, info_entries, info_entries, calc_file_info_hash-calc_info_hash,
}
use torrent_client.Torrent.Codec.RoundTrip.{Writable, decoded, new_torrent_info-to_bencoded_string}
use torrent_client.Tests.Cache.{sample_info}

pub sample-Writable : Writable sample_info
sample-Writable = record {
  name = omega arith;
  size = omega arith;
  piece_length = omega arith;
  pieces = omega arith;
  files = (
    record { size = omega arith; path = (omega arith, tt); some_path = omega arith },
    (record { size = omega arith; path = (omega arith, tt); some_path = omega arith }, tt),
  );
}

new_torrent_info-to_bencoded_string_example :
    (b : Bytes) × (dict : Fields) × (to_bencoded_string sample_info ≡ some b)
    × (decode [] b ≡ ok (Value.dict dict))
    × (new_torrent_info dict ≡ ok (decoded sample_info))
new_torrent_info-to_bencoded_string_example =
    new_torrent_info-to_bencoded_string [] sample_info sample-Writable

abbrev torrent_file : Fields
torrent_file =
    Fields.field (codes "announce") (Value.str (codes "udp://t:1/"))
      (Fields.field (codes "info") (Value.dict (info_entries sample_info)) Fields.end)

path-Encodable : (b : Bytes) → length b ≤ max_int → Encodable (Value.list (path_list (b ∷ [])))
path-Encodable b h = Encodable.list (Encodable.bytes h) EncodableItems.nil

entry-Encodable :
    (n : ℕ) (b : Bytes)
    → IsInt (ℤ.pos n)
    → length b ≤ max_int
    → Encodable (
        Value.dict (
          Fields.field
            (codes "length")
            (Value.int (ℤ.pos n))
            (Fields.field (codes "path") (Value.list (path_list (b ∷ []))) Fields.end)))
unfolding eq_bytes
entry-Encodable n b h l = Encodable.dict (
    EncodableFields.field (omega arith) (refl, tt) (Encodable.int h)
      (EncodableFields.field (omega arith) tt (path-Encodable b l) EncodableFields.end))

files-Encodable : Encodable (Value.list (file_entries sample_info.files))
files-Encodable = Encodable.list (entry-Encodable 3 (codes "a") (omega arith) (omega arith)) (
    EncodableItems.cons (entry-Encodable 5 (codes "b") (omega arith) (omega arith))
      EncodableItems.nil)

info_entries-Encodable : Encodable (Value.dict (info_entries sample_info))
unfolding eq_bytes
info_entries-Encodable = Encodable.dict (
    EncodableFields.field (omega arith) (refl, (refl, (refl, tt))) files-Encodable
      (EncodableFields.field (omega arith) (refl, (refl, tt)) (Encodable.bytes (omega arith))
        (EncodableFields.field (omega arith) (refl, tt) (Encodable.int (omega arith))
          (EncodableFields.field (omega arith) tt (Encodable.bytes (omega arith))
            EncodableFields.end))))

torrent_file-Encodable : Encodable (Value.dict torrent_file)
unfolding eq_bytes
torrent_file-Encodable = Encodable.dict (
    EncodableFields.field (omega arith) (refl, tt) (Encodable.str (omega arith))
      (EncodableFields.field (omega arith) tt info_entries-Encodable EncodableFields.end))

calc_file_info_hash-calc_info_hash_example :
    (content : Bytes) × (hash : Bytes) × (encode (Value.dict torrent_file) ≡ some content)
    × (calc_file_info_hash pad [] content ≡ ok hash)
    × (calc_info_hash pad sample_info ≡ some hash)
unfolding lookup
calc_file_info_hash-calc_info_hash_example =
    calc_file_info_hash-calc_info_hash pad [] sample_info torrent_file torrent_file-Encodable refl
