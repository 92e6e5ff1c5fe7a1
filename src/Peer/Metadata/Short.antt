-- ===== src/Peer/Metadata/Short.antt =====
-- How long a data message of the metadata is (pkg/torrent/extensions.go).
use torrent_client.Common.{
  ℕ, zero, suc, ◌+◌, ◌*◌, ◌/◌, ◌%◌, ◌^◌, ◌≤◌, ◌<◌, ◌≡◌, refl, ap, true, [], ◌∷◌, ◌++◌, arith, ltb,
  Bytes, codes, length, drop, length-append, length-take, if_rule,
}
use torrent_client.Bencode.Decimal.{digits, format, itoa}
use torrent_client.Bencode.Encode.{encode, join_entries, sort_keys, encode_int}
use torrent_client.Common.Int.{max_int}
use torrent_client.Extension.{encode_map, metadata_dict}
use torrent_client.Peer.Metadata.Replies.{data_message, data_body, piece_at}

-- A number below 10 ^ (k + 1) has at most k + 1 digits.
length-digits : (f k n : ℕ) → n < 10 ^ suc k → length (digits f n) ≤ suc k
unfolding digits
length-digits zero k n h = omega arith
length-digits (suc f) zero n h =
    let one : ltb n 10 ≡ true = ground arith in rw (digits, one) (omega arith)
length-digits (suc f) (suc k) n h =
    let front = digits f (n / 10) in
    let rest = length-digits f k (n / 10) (omega arith) in
    if_rule (λ x. length x ≤ suc (suc k)) (ltb n 10) ((48 + n) ∷ []) (front ++ ((48 + n % 10) ∷ []))
      (λ _. omega arith) (λ _. omega (arith, length-append front ((48 + n % 10) ∷ []), rest))

length-format : (n : ℕ) → n ≤ max_int → length (format n) ≤ 19
unfolding format
length-format n h = length-digits (suc n) 18 n (omega arith)

shape :
    (b : Bytes) (i : ℕ)
    → encode_map (metadata_dict (data_message b i))
      ≡ codes "d8:msg_typei1e5:piecei"
        ++ ((format i ++ codes "e")
            ++ (codes "10:total_sizei" ++ ((format (length b) ++ codes "e") ++ codes "e")))
unfolding encode join_entries sort_keys metadata_dict encode_int itoa format
shape b i = refl

-- The message for a piece that the metadata has fits its length field.
pub length-data_body :
    (b : Bytes) (i : ℕ)
    → i * 16384 ≤ length b
    → length b ≤ max_int
    → length (data_body b i) + 6 < 2 ^ 32
unfolding piece_at
length-data_body b i inside small =
    let number = format i ++ codes "e" in
    let size = format (length b) ++ codes "e" in
    let dict = encode_map (metadata_dict (data_message b i)) in
    let whole : length dict
        ≡ length (
            codes "d8:msg_typei1e5:piecei"
            ++ (number ++ (codes "10:total_sizei" ++ (size ++ codes "e")))) =
      ap length (shape b i) in
    omega (
      arith,
      whole,
      length-append dict (piece_at b i),
      length-append number (codes "10:total_sizei" ++ (size ++ codes "e")),
      length-append size (codes "e"),
      length-append (format i) (codes "e"),
      length-append (format (length b)) (codes "e"),
      length-format i (omega arith),
      length-format (length b) small,
      length-take 16384 (drop (i * 16384) b),
    )
