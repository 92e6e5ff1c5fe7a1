-- ===== src/Extension/Metadata.antt =====
-- Metadata messages, written and read (pkg/torrent/extension_messages.go).
use torrent_client.Common.{
  ◌≡◌, refl, ◌∙◌, inl, inr, Option, none, some, [], ◌++◌, arith, if◌then◌else◌, Bool-cases, Bytes,
  codes, drop_front,
}
use torrent_client.Common.Int.{ℤ, IsInt}
use torrent_client.Common.Outcome.{ok}
use torrent_client.Bencode.Value.{Value, Fields, lookup, eq_bytes}
use torrent_client.Bencode.Encode.{or_nil}
use torrent_client.Bencode.Normal.{
  norm, norm_dict, Encodable, EncodableFields, lookup-norm_dict, map_option,
}
use torrent_client.Bencode.RoundTrip.{decode_with_count-encode}
use torrent_client.Extension.{
  MetadataExtensionMessage, encode_map, metadata_dict, parse_metadata, as_dict, int_of,
  is_data_message,
}

-- the numbers of the message are in the range of `int`
pub record InRange (m : MetadataExtensionMessage) : Type 0 where
  pub msg_type : IsInt m.msg_type
  pub piece : IsInt m.piece
  pub total_size : IsInt m.total_size

metadata_dict-Encodable :
    (m : MetadataExtensionMessage) → InRange m → Encodable (Value.dict (metadata_dict m))
unfolding metadata_dict eq_bytes
metadata_dict-Encodable m r = elim (Bool-cases (is_data_message m.msg_type)) [
  | inl full ↦ rw full (
      Encodable.dict (
        EncodableFields.field (omega arith) (refl, (refl, tt)) (Encodable.int r.msg_type)
          (EncodableFields.field (omega arith) (refl, tt) (Encodable.int r.piece)
            (EncodableFields.field (omega arith) tt (Encodable.int r.total_size)
              EncodableFields.end))))
  | inr other ↦ rw other (
      Encodable.dict (
        EncodableFields.field (omega arith) (refl, tt) (Encodable.int r.msg_type)
          (EncodableFields.field (omega arith) tt (Encodable.int r.piece) EncodableFields.end)))
]

fields_of : {fs : Fields} → Encodable (Value.dict fs) → EncodableFields fs
fields_of (Encodable.dict es) = es

int_of-norm : (o : Option Value) → int_of (map_option norm o) ≡ int_of o
unfolding int_of norm
int_of-norm none = refl
int_of-norm (some (Value.int z)) = refl
int_of-norm (some (Value.bytes b)) = refl
int_of-norm (some (Value.str b)) = refl
int_of-norm (some (Value.list is)) = refl
int_of-norm (some (Value.dict fs)) = refl
int_of-norm (some Value.other) = refl

-- the number that a parser finds in the normal form
int_of-norm_dict :
    (k : Bytes) (fs : Fields)
    → EncodableFields fs
    → int_of (lookup k (norm_dict fs)) ≡ int_of (lookup k fs)
int_of-norm_dict k fs e = rw (lookup-norm_dict k fs e) (int_of-norm (lookup k fs))

fields-metadata_dict :
    (m : MetadataExtensionMessage)
    → (int_of (lookup (codes "msg_type") (metadata_dict m)) ≡ m.msg_type)
      × (int_of (lookup (codes "piece") (metadata_dict m)) ≡ m.piece)
      × (int_of (lookup (codes "total_size") (metadata_dict m))
          ≡ (if is_data_message m.msg_type then m.total_size else ℤ.pos 0))
unfolding metadata_dict lookup eq_bytes int_of
fields-metadata_dict m = elim (Bool-cases (is_data_message m.msg_type)) [
  | inl full ↦ rw full (refl, refl, refl)
  | inr other ↦ rw other (refl, refl, refl)
]

-- The dictionary that a metadata message is written with is read back, whatever rest follows it,
-- for numbers in the range of `int`: its type, its piece and the data are the ones of the message,
-- and the total size is that of a data message and 0 for the others.
pub parse_metadata-metadata_dict :
    (m : MetadataExtensionMessage) (rest : Bytes)
    → InRange m
    → parse_metadata (encode_map (metadata_dict m) ++ rest)
      ≡ ok (record {
        extension_msg_id = ℤ.pos 0;
        msg_type = m.msg_type;
        piece = m.piece;
        metadata_piece = rest;
        total_size = if is_data_message m.msg_type then m.total_size else ℤ.pos 0;
      })
unfolding parse_metadata as_dict norm_dict norm
parse_metadata-metadata_dict m rest r =
    let fs = metadata_dict m in
    let e = metadata_dict-Encodable m r in
    let (b, written, reads) = decode_with_count-encode [] rest e in
    let (t, p, s) = fields-metadata_dict m in
    let read = λ (k : Bytes). int_of-norm_dict k fs (fields_of e) in
    let t' = read (codes "msg_type") ∙ t in
    let p' = read (codes "piece") ∙ p in
    let s' = read (codes "total_size") ∙ s in
    rw (written, or_nil, reads, drop_front b rest)
      (λ j. ok (record {
        extension_msg_id = ℤ.pos 0;
        msg_type = t' j;
        piece = p' j;
        metadata_piece = rest;
        total_size = s' j;
      }))
