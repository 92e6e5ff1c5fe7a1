-- ===== src/Extension.antt =====
-- pkg/torrent/extension_messages.go and pkg/torrent/extensions.go: the extension protocol of a
-- connection, with the exchange of torrent metadata. A nil map is an empty one here: the code
-- makes the map before it writes to it.
-- A message has no spare capacity behind it: `ReadMessage` makes it as long as it is.
pub mod Metadata
pub mod Recognise
use torrent_client.Common.{
  ℕ, suc, ◌+◌, ◌-◌, ◌*◌, ◌%◌, ◌^◌, Bool, false, Option, some, List, [], ◌∷◌, ◌++◌, leb, ◌==◌,
  if◌then◌else◌, Bytes, codes, length, take, drop,
}
use torrent_client.Common.Int.{ℤ}
use torrent_client.Common.Outcome.{
  Outcome, ok, err, panic, no_fuel, check, guard, not_a_dict, ◌>>=◌, ◌>>◌, Error,
}
use torrent_client.Bencode.Value.{Value, Fields, lookup, eq_bytes}
use torrent_client.Bencode.Encode.{encode, or_nil}
use torrent_client.Bencode.Decode.{decode, decode_with_count}
use torrent_client.Bitfield.{copy_into}
use torrent_client.Wire.{put_uint32, make}

pub record MetadataExtensionMessage : Type 0 where
  pub extension_msg_id : ℤ
  pub msg_type : ℤ
  pub piece : ℤ
  pub metadata_piece : Bytes
  pub total_size : ℤ

-- `MetadataRequestState` and the rest of `BitTorrentExtensions`
pub record Extensions : Type 0 where
  pub supports_extensions : Bool
  pub supported_extensions : List (Bytes × ℤ)
  pub metadata_size : ℤ
  pub requesting_metadata : Bool
  pub requested_metadata : Bytes
  pub pieces_received : ℕ

-- `EncodeDict(m)` for a map `m`
abbrev pub encode_map : Fields → Bytes
encode_map fs = or_nil (encode (Value.dict fs))

-- The frame of both kinds: the length, 20, the id of the extension, the dictionary.
unfoldable pub frame : (id : ℕ) → Bytes → Bytes
unfolding put_uint32
frame id body = put_uint32 ((length body + 2) % 2 ^ 32) ++ (20 ∷ id ∷ body)

-- `ExtensionHandshakeMessage.Serialize` with the map `M`
unfoldable pub serialize_handshake : Fields → Bytes
unfolding frame encode
serialize_handshake m = frame 0 (encode_map (Fields.field (codes "m") (Value.dict m) Fields.end))

abbrev pub is_type : ℕ → ℤ → Bool
is_type k (ℤ.pos n) = n == k
is_type k (ℤ.negsuc n) = false

abbrev pub is_reject_message : ℤ → Bool
is_reject_message = is_type 0

abbrev pub is_data_message : ℤ → Bool
is_data_message = is_type 1

abbrev pub is_request_message : ℤ → Bool
is_request_message = is_type 2

-- an `int` as a 64-bit word, two's complement
unfoldable pub word : ℤ → ℕ
word (ℤ.pos n) = n % 2 ^ 64
word (ℤ.negsuc n) = 2 ^ 64 - 1 - n % 2 ^ 64

unfoldable pub metadata_dict : MetadataExtensionMessage → Fields
metadata_dict m =
    let more =
      if is_data_message m.msg_type
      then Fields.field (codes "total_size") (Value.int m.total_size) Fields.end
      else Fields.end in
    Fields.field (codes "msg_type") (Value.int m.msg_type)
      (Fields.field (codes "piece") (Value.int m.piece) more)

-- `MetadataExtensionMessage.Serialize`
unfoldable pub serialize_metadata : MetadataExtensionMessage → Bytes
unfolding frame encode metadata_dict word
serialize_metadata m = frame (word m.extension_msg_id % 256) (encode_map (metadata_dict m))

unfoldable pub new_request_message : (extension_id piece : ℤ) → MetadataExtensionMessage
new_request_message extension_id piece = record {
  extension_msg_id = extension_id;
  msg_type = ℤ.pos 0;
  piece = piece;
  metadata_piece = [];
  total_size = ℤ.pos 0;
}

-- `v, ok := dict[k].(int)`, and 0 where there is none
unfoldable pub int_of : Option Value → ℤ
int_of (some (Value.int z)) = z
int_of _ = ℤ.pos 0

-- `v.(map[string]interface{})` with a second result
unfoldable pub as_dict : Value → Outcome Fields
as_dict (Value.dict fs) = ok fs
as_dict _ = err not_a_dict

-- The same without one: no entry and another type panic.
unfoldable pub must_dict : Option Value → Outcome Fields
must_dict (some (Value.dict fs)) = ok fs
must_dict _ = panic

-- The loop over the map: each value must be an `int`.
unfoldable pub must_ints : Fields → Outcome (List (Bytes × ℤ))
must_ints Fields.end = ok []
must_ints (Fields.field k (Value.int z) fs) = do rest ← must_ints fs; ok ((k, z) ∷ rest)
must_ints (Fields.field k v fs) = panic

-- `DeserializeExtensionHandshakeMessage`: the map `M`, and `MetadataSize`
unfoldable pub deserialize_handshake : Bytes → Outcome (List (Bytes × ℤ) × ℤ)
unfolding decode as_dict must_dict must_ints int_of lookup
deserialize_handshake msg = do
  decoded ← decode [] msg
  dict ← as_dict decoded
  m ← must_dict (lookup (codes "m") dict)
  ints ← must_ints m
  ok (ints, int_of (lookup (codes "metadata_size") dict))

unfoldable pub parse_metadata : Bytes → Outcome MetadataExtensionMessage
unfolding decode_with_count as_dict int_of lookup
parse_metadata msg = do
  r ← decode_with_count [] msg
  dict ← as_dict r.0
  ok (record {
    extension_msg_id = ℤ.pos 0;
    msg_type = int_of (lookup (codes "msg_type") dict);
    piece = int_of (lookup (codes "piece") dict);
    metadata_piece = drop r.1 msg;
    total_size = int_of (lookup (codes "total_size") dict);
  })

-- `be.SupportedExtensions[k] = z`
unfoldable pub put_int : Bytes → ℤ → List (Bytes × ℤ) → List (Bytes × ℤ)
unfolding eq_bytes
put_int k z [] = (k, z) ∷ []
put_int k z ((j, w) ∷ l) = if eq_bytes j k then (j, z) ∷ l else (j, w) ∷ put_int k z l

unfoldable pub put_ints : List (Bytes × ℤ) → List (Bytes × ℤ) → List (Bytes × ℤ)
unfolding put_int
put_ints [] l = l
put_ints ((k, z) ∷ new) l = put_ints new (put_int k z l)

-- `copy(s[off:], b)`: `off` is an `int` as a word, and a slice has fewer than 2^63 bytes.
unfoldable pub copy_at : Bytes → (off : ℕ) → Bytes → Outcome Bytes
unfolding copy_into
copy_at s off b = check (leb off (length s)) >> ok (take off s ++ copy_into (drop off s) b)

-- An error of the parser is only logged.
unfoldable pub handle_metadata : Extensions → Bytes → Outcome Extensions
unfolding parse_metadata copy_at word
handle_metadata be payload = elim (parse_metadata payload) [
  | ok msg ↦
      if is_data_message msg.msg_type
      then (copy_at be.requested_metadata (word msg.piece * 16384 % 2 ^ 64) msg.metadata_piece
          >>= λ s.
              ok (record be { requested_metadata = s; pieces_received = be.pieces_received + 1 }))
      else ok be
  | err e ↦ ok be
  | panic ↦ panic
  | no_fuel ↦ no_fuel
]

unfoldable pub handle_extension_handshake : Extensions → Bytes → Outcome Extensions
unfolding deserialize_handshake put_ints
handle_extension_handshake be payload = elim (deserialize_handshake payload) [
  | ok msg ↦ ok (record be {
    supported_extensions = put_ints msg.0 be.supported_extensions;
    metadata_size = msg.1;
  })
  | err e ↦ ok be
  | panic ↦ panic
  | no_fuel ↦ no_fuel
]

-- `handleExtension`
unfoldable pub handle_extension : Extensions → Bytes → Outcome Extensions
unfolding handle_extension_handshake handle_metadata
handle_extension be [] = panic
handle_extension be (id ∷ payload) =
    if id == 0
    then handle_extension_handshake be payload
    else if id == 3
    then handle_metadata be payload
    else ok be
