-- ===== src/Bencode/Decode.antt =====
-- pkg/bencode/bencode_decoder.go. A Go slice is its bytes and, behind them, the spare bytes of
-- its backing array: an upper bound of `s[a:b]` is checked against the capacity, so `s[a:b]` can
-- reach into the spare bytes. `s[n:]` ends at the length. The spare bytes are the section's
-- parameter, since every slice that the decoder makes of its input ends where the input ends.

pub mod ByteString
pub mod Total
use torrent_client.Common.{
  ℕ, zero, suc, ◌+◌, ◌-◌, min, not, ◌&&◌, Option, none, some, [], ◌∷◌, ◌++◌, leb, ◌==◌,
  if◌then◌else◌, Bytes, length, take, drop,
}
use torrent_client.Common.Outcome.{
  Outcome, ok, err, panic, no_fuel, ◌>>=◌, ◌>>◌, check, guard, Error,
}
use torrent_client.Common.Outcome.{
  empty_input, bad_start, no_start, no_end, bad_number, no_delimiter, short_copy,
}
use torrent_client.Common.Int.{ℤ, pos, negsuc}
use torrent_client.Bencode.Decimal.{atoi}
use torrent_client.Bencode.Value.{Value, int, bytes, list, dict, Items, nil, Fields, end, put, push}

-- `findFirstByte`, from position `i`
unfoldable pub find_first_byte : ℕ → Bytes → ℕ → Option ℕ
find_first_byte i [] b = none
find_first_byte i (c ∷ s) b = if c == b then some i else find_first_byte (i + 1) s b

-- the loop of `decodeInteger`, from position `i`: 0 where there is no end character
unfoldable pub find_end : ℕ → Bytes → ℕ
find_end i [] = 0
find_end i (c ∷ s) = if c == b'e' then i else find_end (i + 1) s

-- `s[0]`
abbrev pub first : Bytes → Outcome ℕ
first [] = panic
first (c ∷ s) = ok c

-- `s[n:]`
abbrev pub slice_from : Bytes → ℕ → Outcome Bytes
slice_from s n = check (leb n (length s)) >> ok (drop n s)

abbrev pub or_err {ℓ} : {A : Type ℓ} → Option A → Error → Outcome A
or_err none e = err e
or_err (some a) e = ok a

unfoldable pub decode_integer : Bytes → Outcome (ℤ × ℕ)
unfolding find_end
decode_integer s = do
  c ← first s
  guard (c == b'i') no_start
  let stop = find_end 1 (drop 1 s)
  guard (not (stop == 0)) no_end
  z ← or_err (atoi (take (stop - 1) (drop 1 s))) bad_number
  ok (z, stop + 1)

-- `make([]byte, l)` panics for a negative `l`.
abbrev pub make_length : ℤ → Outcome ℕ
make_length (pos l) = ok l
make_length (negsuc l) = panic

module _ (spare : Bytes) where
  unfoldable pub decode_byte_string : Bytes → Outcome (Bytes × ℕ)
  unfolding find_first_byte
  decode_byte_string s = do
    delim ← or_err (find_first_byte 0 s b':') no_delimiter
    z ← or_err (atoi (take delim s)) bad_number
    l ← make_length z
    check (leb (delim + 1 + l) (length s + length spare))
    let part = take l (drop (delim + 1) (s ++ spare))
    guard (min l (length part) == l) short_copy
    ok (part, delim + 1 + l)

  -- The loops of `decodeDict` and `decodeList`. `rec` is `DecodeWithCount`, the first number
  -- bounds the rounds.
  module _ (rec : Bytes → Outcome (Value × ℕ)) where
    unfoldable pub dict_loop : ℕ → Bytes → ℕ → Fields → Outcome (Fields × ℕ)
    dict_loop zero s total rv = no_fuel
    dict_loop (suc k) s total rv = do
      (key, n) ← decode_byte_string s
      s' ← slice_from s n
      (val, m) ← rec s'
      s'' ← slice_from s' m
      let rv' = put key val rv
      c ← first s''
      let more = dict_loop k s'' (total + n + m) rv'
      if c == b'e' then ok (rv', total + n + m + 1) else more

    unfoldable pub list_loop : ℕ → Bytes → ℕ → Items → Outcome (Items × ℕ)
    list_loop zero s total rv = no_fuel
    list_loop (suc k) s total rv = do
      (val, m) ← rec s
      s' ← slice_from s m
      let rv' = push rv val
      c ← first s'
      let more = list_loop k s' (total + m) rv'
      if c == b'e' then ok (rv', total + m + 1) else more

    unfoldable pub decode_dict : Bytes → Outcome (Fields × ℕ)
    decode_dict s = do
      c ← first s
      guard (c == b'd') no_start
      dict_loop (length s) (drop 1 s) 1 end

    unfoldable pub decode_list : Bytes → Outcome (Items × ℕ)
    decode_list s = do
      c ← first s
      guard (c == b'l') no_start
      list_loop (length s) (drop 1 s) 1 nil

    -- The switch of `DecodeWithCount` on the first character, `rec` for the calls below it.
    unfoldable pub decode_switch : ℕ → Bytes → Outcome (Value × ℕ)
    decode_switch c s =
        if c == b'i'
        then (decode_integer s >>= λ (z, n). ok (int z, n))
        else if leb b'0' c && leb c b'9'
        then (decode_byte_string s >>= λ (b, n). ok (bytes b, n))
        else if c == b'd'
        then (decode_dict s >>= λ (fs, n). ok (dict fs, n))
        else if c == b'l'
        then (decode_list s >>= λ (is, n). ok (list is, n))
        else err bad_start

  -- The fuel bounds the depth of nested values.
  unfoldable pub decode_fuel : ℕ → Bytes → Outcome (Value × ℕ)
  decode_fuel zero s = no_fuel
  decode_fuel (suc f) [] = err empty_input
  decode_fuel (suc f) (c ∷ s) = decode_switch (decode_fuel f) c (c ∷ s)

  -- `DecodeWithCount`: the nesting is no deeper than the input is long.
  unfoldable pub decode_with_count : Bytes → Outcome (Value × ℕ)
  unfolding decode_fuel decode_switch decode_integer decode_byte_string decode_dict decode_list
      dict_loop list_loop put push atoi
  decode_with_count s = decode_fuel (suc (length s)) s

  unfoldable pub decode : Bytes → Outcome Value
  unfolding decode_with_count
  decode s = decode_with_count s >>= λ (v, _). ok v
