-- ===== src/Tests/Bencode.antt =====
-- Inputs of pkg/bencode, in the manner of decoder_test.go and encoder_test.go.
use torrent_client.Common.{◌≤◌, ◌<◌, ◌≡◌, refl, some, [], ◌∷◌, ◌++◌, arith, Bytes, codes, length}
use torrent_client.Common.Int.{ℤ}
use torrent_client.Common.Outcome.{ok, panic, Ensures}
use torrent_client.Bencode.Broken.{decode_with_count_truncated}
use torrent_client.Bencode.Decimal.{format}
use torrent_client.Bencode.Decode.{decode_with_count}
use torrent_client.Bencode.Decode.Total.{decode_with_count-total}
use torrent_client.Bencode.Encode.{sort_keys, encode}
use torrent_client.Bencode.Normal.{of_list, norm, Encodable, EncodableItems, EncodableFields}
use torrent_client.Bencode.RoundTrip.{decode_with_count-encode}
use torrent_client.Bencode.Value.{eq_bytes, Value, Items, Fields}

-- {"b": -12, "a": ["x"]}
abbrev sample_fields : Fields
sample_fields = Fields.field (codes "b") (Value.int (ℤ.negsuc 11)) (
    Fields.field (codes "a") (Value.list (Items.cons (Value.str (codes "x")) Items.nil)) Fields.end)

sample_fields-Encodable : EncodableFields sample_fields
unfolding eq_bytes
sample_fields-Encodable =
    EncodableFields.field (omega arith) (refl, tt) (Encodable.int (omega arith))
      (EncodableFields.field (omega arith) tt
        (Encodable.list (Encodable.str (omega arith)) EncodableItems.nil) EncodableFields.end)

sample_runs :
    decode_with_count (codes "??") (codes "d1:al1:xe1:bi-12ee")
    ≡ ok (norm (Value.dict sample_fields), 18)
unfolding decode_with_count norm of_list sort_keys
sample_runs = refl

reads_into_spare : decode_with_count (codes "??") (codes "3:ab") ≡ ok (Value.bytes (codes "ab?"), 5)
unfolding decode_with_count
reads_into_spare = refl

decode_with_count-encode_example :
    (b : Bytes) × (encode (Value.dict sample_fields) ≡ some b)
    × (decode_with_count [] (b ++ codes "rest") ≡ ok (norm (Value.dict sample_fields), length b))
decode_with_count-encode_example =
    decode_with_count-encode [] (codes "rest") (Encodable.dict sample_fields-Encodable)

decode_with_count-total_example :
    Ensures (λ r. (0 < r.1) × (r.1 ≤ 8)) (decode_with_count [] (codes "l2:abi7e"))
decode_with_count-total_example = decode_with_count-total [] (codes "l2:abi7e")

decode_with_count_truncated_example : decode_with_count [] (format 5 ++ (b':' ∷ codes "ab")) ≡ panic
decode_with_count_truncated_example = decode_with_count_truncated [] 5 (codes "ab") (omega arith)
