-- ===== src/Bencode/RoundTrip.antt =====
-- Decoding what `Encode` wrote (pkg/bencode/bencode_encoder.go, pkg/bencode/bencode_decoder.go).
mod Strings
mod Lists
mod Dicts
use torrent_client.Common.{
  suc, ◌≡◌, refl, some, [], ◌++◌, append-nil, arith, Bytes, length, length-append,
}
use torrent_client.Common.Outcome.{ok}
use torrent_client.Bencode.Encode.{encode, encode_list, encode_dict, or_nil}
use torrent_client.Bencode.Decode.{decode_fuel, decode_with_count, decode}
use torrent_client.Bencode.Normal.{norm, norm_items, Encodable, EncodableItems, EncodableFields}
use torrent_client.Bencode.Value.{Value, Items, Fields}
use Strings.{Reads, Reads-int, Reads-string}
use Lists.{ItemsRead, Reads-list}
use Dicts.{FieldsRead, Reads-dict}

encode-some : {v : Value} → Encodable v → encode v ≡ some (or_nil (encode v))
unfolding encode
encode-some (Encodable.int h) = refl
encode-some (Encodable.bytes h) = refl
encode-some (Encodable.str h) = refl
encode-some (Encodable.list e es) = refl
encode-some (Encodable.dict es) = refl

module _ (spare : Bytes) where
  mutual
    unfolding encode norm

    pub encode-Reads : {v : Value} → Encodable v → Reads spare (or_nil (encode v)) (norm v)
    encode-Reads (Encodable.int {z} h) = Reads-int spare z h
    encode-Reads (Encodable.bytes {s} h) = Reads-string spare s h
    encode-Reads (Encodable.str {s} h) = Reads-string spare s h
    encode-Reads (Encodable.list {v} {is} e es) =
        Reads-list spare v is (encode-Reads e, encode_list-Reads es)
    encode-Reads (Encodable.dict {k} {v} {fs} es) =
        Reads-dict spare k v fs es (encode_dict-Reads es)

    encode_list-Reads : {is : Items} → EncodableItems is → ItemsRead spare is
    encode_list-Reads EncodableItems.nil = tt
    encode_list-Reads (EncodableItems.cons e es) = (encode-Reads e, encode_list-Reads es)

    encode_dict-Reads : {fs : Fields} → EncodableFields fs → FieldsRead spare fs
    encode_dict-Reads EncodableFields.end = tt
    encode_dict-Reads (EncodableFields.field h a e es) = (h, encode-Reads e, encode_dict-Reads es)

  -- What `Encode` writes for a value with numbers and lengths in the range of `int`, no empty list
  -- or map and no value of another type, is read back by `DecodeWithCount`, whatever bytes follow
  -- and whatever the spare capacity holds: the result is the value in normal form, and the count
  -- is the number of bytes that were written.
  pub decode_with_count-encode :
      {v : Value} (rest : Bytes)
      → Encodable v
      → (b : Bytes) × (encode v ≡ some b)
        × (decode_with_count spare (b ++ rest) ≡ ok (norm v, length b))
  unfolding decode_with_count
  decode_with_count-encode {v} rest e =
      let b = or_nil (encode v) in
      (
        b,
        encode-some e,
        (encode-Reads e).reads (suc (length (b ++ rest))) rest
            (omega (arith, length-append b rest)),
      )

  -- The same for `Decode`, with no bytes behind.
  pub decode-encode :
      {v : Value} → Encodable v → (b : Bytes) × (encode v ≡ some b) × (decode spare b ≡ ok (norm v))
  unfolding decode
  decode-encode e =
      let (b, written, reads) = decode_with_count-encode [] e in
      (b, written, rw (rw (append-nil b) at reads))
