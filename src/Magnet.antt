-- ===== src/Magnet.antt =====
-- pkg/torrent/magnet.go: magnet links, and the metadata that a peer sends for one; the addresses of
-- trackers out of URLs, pkg/torrent/common.go and pkg/util/address.go. The hash function is a
-- parameter.
pub mod Links
pub mod Fetch
use torrent_client.Common.{
  ℕ, ◌+◌, ◌-◌, ◌*◌, ◌&&◌, ◌||◌, Option, none, some, List, [], ◌∷◌, ◌++◌, leb, ◌==◌, if◌then◌else◌,
  Bytes, codes, length, replicate,
}
use torrent_client.Bencode.Decode.{decode}
use torrent_client.Bencode.Value.{Value, eq_bytes}
use torrent_client.Bitfield.{copy_into}
use torrent_client.Common.Outcome.{
  Outcome, ok, err, panic, no_fuel, guard, bad_xt, bad_hash_format, bad_hex, bad_hash_length,
  bad_prefix, bad_query, ◌>>=◌, ◌>>◌,
}
use torrent_client.Torrent.Codec.{DecodedInfo, Torrent, new_torrent_info}

-- the part in front
abbrev pub add_front : ℕ → List Bytes → List Bytes
add_front c [] = (c ∷ []) ∷ []
add_front c (p ∷ ps) = (c ∷ p) ∷ ps

-- `strings.Split` at one byte
unfoldable pub split : (sep : ℕ) → Bytes → List Bytes
split sep [] = [] ∷ []
split sep (c ∷ s) = let rest = split sep s in if c == sep then [] ∷ rest else add_front c rest

-- the digit of `hex.DecodeString` and of `url.QueryUnescape`
unfoldable pub from_hex : ℕ → Option ℕ
from_hex c =
    if leb b'0' c && leb c b'9'
    then some (c - b'0')
    else if leb b'a' c && leb c b'f'
    then some (c - b'a' + 10)
    else if leb b'A' c && leb c b'F'
    then some (c - b'A' + 10)
    else none

-- two digits
abbrev pub both_digits : Option ℕ → Option ℕ → Option ℕ
both_digits (some a) (some b) = some (a * 16 + b)
both_digits _ _ = none

abbrev pub add_byte : Option ℕ → Option Bytes → Option Bytes
add_byte (some x) (some s) = some (x ∷ s)
add_byte _ _ = none

-- `hex.DecodeString`; `none` is its error.
unfoldable pub hex_decode : Bytes → Option Bytes
unfolding from_hex
hex_decode [] = some []
hex_decode (a ∷ []) = none
hex_decode (a ∷ b ∷ s) = add_byte (both_digits (from_hex a) (from_hex b)) (hex_decode s)

-- the hash of three parts
unfoldable pub hash_of_parts : List Bytes → Outcome Bytes
unfolding eq_bytes hex_decode
hash_of_parts (a ∷ b ∷ c ∷ []) = do
  guard (eq_bytes b (codes "btih")) bad_hash_format
  hash ← elim (hex_decode c) as (λ x. Outcome Bytes) [ none ↦ err bad_hex | some h ↦ ok h ]
  guard (length hash == 20) bad_hash_length
  ok hash
hash_of_parts _ = err bad_xt

-- `GetHashFromXt`
unfoldable pub get_hash_from_xt : Bytes → Outcome Bytes
unfolding split hash_of_parts
get_hash_from_xt xt = hash_of_parts (split b':' xt)

pub record MagnetUri : Type 0 where
  pub info_hash : Bytes
  pub display_name : Bytes
  pub trackers : List Bytes

-- The switch of `ParseMagnetUri`, for a key and its values, which are never empty.
unfoldable pub read_value : MagnetUri → Bytes → List Bytes → Outcome MagnetUri
unfolding eq_bytes get_hash_from_xt copy_into
read_value m k [] = if eq_bytes k (codes "xt") || eq_bytes k (codes "dn") then panic else ok m
read_value m k (v ∷ vs) =
    let with_hash =
      get_hash_from_xt v >>= λ h. ok (record m { info_hash = copy_into m.info_hash h }) in
    if eq_bytes k (codes "xt")
    then with_hash
    else if eq_bytes k (codes "dn")
    then ok (record m { display_name = v })
    else if eq_bytes k (codes "tr")
    then ok (record m { trackers = m.trackers ++ (v ∷ vs) })
    else ok m

-- The loop of `ParseMagnetUri` over what `url.ParseQuery` made.
unfoldable pub read_values : MagnetUri → List (Bytes × List Bytes) → Outcome MagnetUri
unfolding read_value
read_values m [] = ok m
read_values m ((k, vs) ∷ values) = read_value m k vs >>= λ m'. read_values m' values

-- `strings.CutPrefix`: the rest, where the prefix is there
unfoldable pub cut_prefix : (prefix s : Bytes) → Option Bytes
cut_prefix [] s = some s
cut_prefix (p ∷ prefix) [] = none
cut_prefix (p ∷ prefix) (c ∷ s) = if p == c then cut_prefix prefix s else none

-- `ParseMagnetUri`; `parse_query` is `url.ParseQuery`.
unfoldable pub parse_magnet_uri :
    (parse_query : Bytes → Option (List (Bytes × List Bytes))) → Bytes → Outcome MagnetUri
unfolding cut_prefix read_values
parse_magnet_uri parse_query uri = elim (cut_prefix (codes "magnet:?") uri) [
  | none ↦ err bad_prefix
  | some q ↦ elim (parse_query q) [
    | none ↦ err bad_query
    | some values ↦
        read_values (record { info_hash = replicate 20 0; display_name = []; trackers = [] }) values
  ]
]

-- `p[1]` and `p[0]`, with the part of the port in front of a slash
unfoldable pub address_of_parts : List Bytes → Outcome Bytes
unfolding split
address_of_parts (host ∷ port ∷ ps) = elim (split b'/' port) [
  | [] ↦ panic
  | p ∷ qs ↦ ok (host ++ (b':' ∷ p))
]
address_of_parts _ = panic

-- `parseTrackerAddressFromUrl`, in both packages
unfoldable pub parse_tracker_address_from_url : Bytes → Outcome Bytes
unfolding cut_prefix address_of_parts
parse_tracker_address_from_url url =
    let s = elim (cut_prefix (codes "udp://") url) as (λ x. Bytes) [ none ↦ url | some s ↦ s ] in
    address_of_parts (split b':' s)

-- `GetTrackerAddresses`, and `ParseTrackerAddressFromUrls`
unfoldable pub get_tracker_addresses : List Bytes → Outcome (List Bytes)
unfolding parse_tracker_address_from_url
get_tracker_addresses [] = ok []
get_tracker_addresses (url ∷ urls) = do
  a ← parse_tracker_address_from_url url
  rest ← get_tracker_addresses urls
  ok (a ∷ rest)

-- `GetAllTrackerAddresses`
unfoldable pub get_all_tracker_addresses : Torrent → Outcome (List Bytes)
unfolding get_tracker_addresses
get_all_tracker_addresses t = do
  a ← parse_tracker_address_from_url t.announce
  rest ← get_tracker_addresses t.announce_list
  ok (a ∷ rest)

-- what `getMetadataFromPeer` makes of the decoded metadata: `none` is nil.
unfoldable pub info_of_metadata : Outcome Value → Outcome (Option DecodedInfo)
unfolding new_torrent_info
info_of_metadata (ok (Value.dict fs)) = new_torrent_info fs >>= λ ti. ok (some ti)
info_of_metadata (ok v) = ok none
info_of_metadata (err e) = ok none
info_of_metadata panic = panic
info_of_metadata no_fuel = no_fuel

-- The end of `getMetadataFromPeer`, for the metadata that the peer sent.
unfoldable pub check_metadata :
    (sha1 : Bytes → Bytes) → (info_hash metadata : Bytes) → Outcome (Option DecodedInfo)
unfolding eq_bytes decode info_of_metadata
check_metadata sha1 info_hash metadata =
    if eq_bytes (sha1 metadata) info_hash then info_of_metadata (decode [] metadata) else ok none
