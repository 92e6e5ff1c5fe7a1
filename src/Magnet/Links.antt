-- ===== src/Magnet/Links.antt =====
-- Hashes of magnet links, addresses of trackers, and metadata (pkg/torrent/magnet.go,
-- pkg/torrent/common.go, pkg/util/address.go).
use torrent_client.Common.{
  ℕ, ◌+◌, ◌-◌, ◌*◌, ◌/◌, ◌%◌, ◌<◌, ◌≡◌, refl, ap, ◌∙◌, inl, inr, true, false, none, some, List, [],
  ◌∷◌, ◌++◌, arith, ltb, ◌==◌, if◌then◌else◌, ==_refl, Bool-cases, Bytes, codes, length, All,
}
use torrent_client.Bencode.Value.{eq_bytes}
use torrent_client.Common.Outcome.{ok}
use torrent_client.Magnet.{
  split, from_hex, hex_decode, hash_of_parts, get_hash_from_xt, cut_prefix, address_of_parts,
  parse_tracker_address_from_url, info_of_metadata, check_metadata,
}
use torrent_client.Torrent.{TorrentInfo}
use torrent_client.Torrent.Codec.{to_bencoded_string}
use torrent_client.Torrent.Codec.RoundTrip.{Writable, decoded, new_torrent_info-to_bencoded_string}

-- No byte is the separator.
abbrev pub Without : (sep : ℕ) → Bytes → Type 0
Without sep = All (λ c. (c == sep) ≡ false)

pub split_none : (sep : ℕ) (s : Bytes) → Without sep s → split sep s ≡ s ∷ []
unfolding split
split_none sep [] w = refl
split_none sep (c ∷ s) (h, w) = rw (split, h, split_none sep s w)

pub split_first :
    (sep : ℕ) (s rest : Bytes) → Without sep s → split sep (s ++ (sep ∷ rest)) ≡ s ∷ split sep rest
unfolding split
split_first sep [] rest w = rw (split, ==_refl sep)
split_first sep (c ∷ s) rest (h, w) = rw (split, h, split_first sep s rest w)

-- There is a first part.
heads : (sep : ℕ) (t : Bytes) → (p : Bytes) × (ps : List Bytes) × (split sep t ≡ p ∷ ps)
unfolding split
heads sep [] = ([], [], refl)
heads sep (c ∷ t) =
    let (p, ps, e) = heads sep t in
    elim (Bool-cases (c == sep)) [
      | inl same ↦ ([], split sep t, rw (split, same))
      | inr other ↦ (c ∷ p, ps, rw (split, other, e))
    ]

-- Bytes in front of a text that are not the separator belong to its first part.
split_front :
    (sep : ℕ) (s t p : Bytes) (ps : List Bytes)
    → split sep t ≡ p ∷ ps
    → Without sep s
    → split sep (s ++ t) ≡ (s ++ p) ∷ ps
unfolding split
split_front sep [] t p ps e w = e
split_front sep (c ∷ s) t p ps e (h, w) = rw (split, h, split_front sep s t p ps e w)

-- a digit below 16, in lower case
unfoldable pub to_hex : ℕ → ℕ
to_hex d = if ltb d 10 then b'0' + d else b'a' + (d - 10)

-- two digits for each byte
unfoldable pub hex_encode : Bytes → Bytes
unfolding to_hex
hex_encode [] = []
hex_encode (x ∷ s) = to_hex (x / 16) ∷ to_hex (x % 16) ∷ hex_encode s

from_hex-to_hex : (d : ℕ) → d < 16 → from_hex (to_hex d) ≡ some d
unfolding from_hex to_hex
from_hex-to_hex d h = ground arith

to_hex-Without : (d : ℕ) → d < 16 → (to_hex d == b':') ≡ false
unfolding to_hex
to_hex-Without d h = ground arith

hex_decode-hex_encode : (s : Bytes) → All (λ x. x < 256) s → hex_decode (hex_encode s) ≡ some s
unfolding hex_decode hex_encode
hex_decode-hex_encode [] h = refl
hex_decode-hex_encode (x ∷ s) (b, h) =
    let e : x / 16 * 16 + x % 16 ≡ x = omega arith in
    rw (
      hex_decode,
      from_hex-to_hex (x / 16) (omega arith),
      from_hex-to_hex (x % 16) (omega arith),
      hex_decode-hex_encode s h,
      e,
    )

hex_encode-Without : (s : Bytes) → All (λ x. x < 256) s → Without b':' (hex_encode s)
unfolding hex_encode
hex_encode-Without [] h = tt
hex_encode-Without (x ∷ s) (b, h) = (
  to_hex-Without (x / 16) (omega arith),
  (to_hex-Without (x % 16) (omega arith), hex_encode-Without s h),
)

-- `GetHashFromXt` finds the hash in a topic that was written for it, `urn:btih:` and two digits for
-- each of its 20 bytes.
pub get_hash_from_xt-hex_encode :
    (hash : Bytes)
    → length hash ≡ 20
    → All (λ x. x < 256) hash
    → get_hash_from_xt (codes "urn:btih:" ++ hex_encode hash) ≡ ok hash
unfolding get_hash_from_xt hash_of_parts eq_bytes
get_hash_from_xt-hex_encode hash l h =
    let first =
      split_first b':' (codes "urn") (codes "btih:" ++ hex_encode hash)
        (refl, (refl, (refl, tt))) in
    let second =
      split_first b':' (codes "btih") (hex_encode hash) (refl, (refl, (refl, (refl, tt)))) in
    let third = split_none b':' (hex_encode hash) (hex_encode-Without hash h) in
    let size : (length hash == 20) ≡ true = ground arith in
    let hashed : hash_of_parts (codes "urn" ∷ codes "btih" ∷ hex_encode hash ∷ []) ≡ ok hash =
      rw (hash_of_parts, hex_decode-hex_encode hash h, size) in
    ap hash_of_parts (first ∙ ap (◌∷◌ (codes "urn")) (second ∙ ap (◌∷◌ (codes "btih")) third))
    ∙ hashed

first_address :
    (host port q : Bytes) (qs : List Bytes)
    → Without b'/' port
    → address_of_parts (host ∷ (port ++ (b'/' ∷ q)) ∷ qs) ≡ ok (host ++ (b':' ∷ port))
unfolding address_of_parts
first_address host port q qs w = let e = split_first b'/' port q w in rw (address_of_parts, e)

-- For a URL with `udp://` in front, the address of
-- the tracker is its host and its port: what follows a slash behind the port is left out. The host
-- has no colon, the port no colon and no slash.
pub parse_tracker_address_from_url-udp :
    (host port rest : Bytes)
    → Without b':' host
    → Without b':' port
    → Without b'/' port
    → parse_tracker_address_from_url (codes "udp://" ++ (host ++ (b':' ∷ (port ++ (b'/' ∷ rest)))))
      ≡ ok (host ++ (b':' ∷ port))
unfolding parse_tracker_address_from_url cut_prefix
parse_tracker_address_from_url-udp host port rest h c s =
    let (q, qs, e) = heads b':' rest in
    let slash : split b':' (b'/' ∷ rest) ≡ (b'/' ∷ q) ∷ qs = slash_front q qs e in
    let parts =
      split_first b':' host (port ++ (b'/' ∷ rest)) h
      ∙ ap (◌∷◌ host) (split_front b':' port (b'/' ∷ rest) (b'/' ∷ q) qs slash c) in
    ap address_of_parts parts ∙ first_address host port q qs s
  where
    slash_front :
        (q : Bytes) (qs : List Bytes)
        → split b':' rest ≡ q ∷ qs
        → split b':' (b'/' ∷ rest) ≡ (b'/' ∷ q) ∷ qs
    slash_front q qs e = rw (split, e)

-- Metadata that is the info dictionary of a torrent is taken where its hash is the one of the
-- magnet link, and the torrent is read out of it. The numbers and lengths of the torrent are in the
-- range of `int`, and each file has a path.
pub check_metadata-to_bencoded_string :
    (sha1 : Bytes → Bytes) (info_hash : Bytes) (ti : TorrentInfo)
    → Writable ti
    → (metadata : Bytes) × (to_bencoded_string ti ≡ some metadata)
      × (check_metadata sha1 info_hash metadata
          ≡ ok (if eq_bytes (sha1 metadata) info_hash then some (decoded ti) else none))
unfolding check_metadata info_of_metadata
check_metadata-to_bencoded_string sha1 info_hash ti w =
    let (b, dict, written, reads, made) = new_torrent_info-to_bencoded_string [] ti w in
    (
      b,
      written,
      elim (Bool-cases (eq_bytes (sha1 b) info_hash)) [
        | inl same ↦ rw (same, reads, made)
        | inr other ↦ rw other
      ],
    )
