-- ===== src/Bencode.antt =====
-- pkg/bencode: the values that Go code decodes into `interface{}`, the decimal numbers of
-- `strconv`, `Decode` and `Encode`.
pub mod Value
pub mod Decimal
pub mod Decode
pub mod Encode
pub mod Normal
pub mod RoundTrip
pub mod Stable
pub mod Broken
