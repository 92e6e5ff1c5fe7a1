-- ===== src/Torrent/Codec.antt =====
-- pkg/torrent/common.go: a torrent's info dictionary, and pkg/torrent/file.go and pkg/util/file.go,
-- which take it from a torrent file. Numbers that are decoded may be negative, so what
-- `NewTorrentInfoFromBencodedDict` makes is a record of its own.
pub mod RoundTrip
pub mod Hash
use torrent_client.Common.{Option, none, some, List, [], ◌∷◌, ltb, if◌then◌else◌, Bytes, codes}
use torrent_client.Common.Int.{ℤ}
use torrent_client.Common.Outcome.{
  Outcome, ok, err, panic, no_fuel, not_a_dict, no_info, ◌>>=◌, Error,
}
use torrent_client.Bencode.Value.{Value, Items, Fields, lookup}
use torrent_client.Bencode.Encode.{encode}
use torrent_client.Bencode.Decode.{decode}
use torrent_client.Torrent.{TorrentFile, TorrentInfo}

-- `TorrentFile` and `TorrentInfo` as they are decoded
pub record DecodedFile : Type 0 where
  pub length : ℤ
  pub path : List Bytes

pub record DecodedInfo : Type 0 where
  pub name : Bytes
  pub length : ℤ
  pub piece_length : ℤ
  pub pieces : Bytes
  pub files : List DecodedFile

-- A type assertion without a second result: no entry and another type panic.
abbrev pub must_int : Option Value → Outcome ℤ
must_int (some (Value.int z)) = ok z
must_int _ = panic

abbrev pub must_bytes : Option Value → Outcome Bytes
must_bytes (some (Value.bytes b)) = ok b
must_bytes _ = panic

abbrev pub must_list : Option Value → Outcome Items
must_list (some (Value.list is)) = ok is
must_list _ = panic

abbrev pub must_dict : Option Value → Outcome Fields
must_dict (some (Value.dict fs)) = ok fs
must_dict _ = panic

-- the switch on the type of the name
unfoldable pub name_of : Option Value → Bytes
name_of (some (Value.bytes b)) = b
name_of (some (Value.str b)) = b
name_of _ = []

-- `_, ok := infoDict["length"]`, and the number then
unfoldable pub length_of : Option Value → Outcome ℤ
length_of none = ok (ℤ.pos 0)
length_of (some v) = must_int (some v)

unfoldable pub read_path : Items → Outcome (List Bytes)
read_path Items.nil = ok []
read_path (Items.cons p is) = do b ← must_bytes (some p); rest ← read_path is; ok (b ∷ rest)

unfoldable pub read_file : Value → Outcome DecodedFile
unfolding read_path lookup
read_file file = do
  dict ← must_dict (some file)
  path_l ← must_list (lookup (codes "path") dict)
  len ← must_int (lookup (codes "length") dict)
  path ← read_path path_l
  ok (record { length = len; path = path })

unfoldable pub read_files : Items → Outcome (List DecodedFile)
unfolding read_file
read_files Items.nil = ok []
read_files (Items.cons file is) = do f ← read_file file; rest ← read_files is; ok (f ∷ rest)

unfoldable pub files_of : Option Value → Outcome (List DecodedFile)
unfolding read_files
files_of none = ok []
files_of (some v) = must_list (some v) >>= λ is. read_files is

-- `NewTorrentInfoFromBencodedDict`
unfoldable pub new_torrent_info : Fields → Outcome DecodedInfo
unfolding lookup name_of length_of files_of
new_torrent_info dict = do
  piece_length ← must_int (lookup (codes "piece length") dict)
  pieces ← must_bytes (lookup (codes "pieces") dict)
  len ← length_of (lookup (codes "length") dict)
  files ← files_of (lookup (codes "files") dict)
  ok (record {
    name = name_of (lookup (codes "name") dict);
    length = len;
    piece_length = piece_length;
    pieces = pieces;
    files = files;
  })

-- the list of `toBencodeDict`
unfoldable pub path_items : List Bytes → Items
path_items [] = Items.nil
path_items (p ∷ ps) = Items.cons (Value.str p) (path_items ps)

-- `TorrentFile.toBencodeDict`
unfoldable pub to_bencode_dict : TorrentFile → Fields
unfolding path_items
to_bencode_dict f =
    Fields.field (codes "length") (Value.int (ℤ.pos f.length))
      (Fields.field (codes "path") (Value.list (path_items f.path)) Fields.end)

unfoldable pub file_items : List TorrentFile → Items
unfolding to_bencode_dict
file_items [] = Items.nil
file_items (f ∷ fs) = Items.cons (Value.dict (to_bencode_dict f)) (file_items fs)

-- The last entries of the map: the files, if there are any.
unfoldable pub files_field : List TorrentFile → Fields
unfolding file_items
files_field [] = Fields.end
files_field (f ∷ fs) = Fields.field (codes "files") (Value.list (file_items (f ∷ fs))) Fields.end

unfoldable pub info_dict : TorrentInfo → Fields
unfolding files_field
info_dict ti =
    let more =
      if ltb 0 ti.length
      then Fields.field (codes "length") (Value.int (ℤ.pos ti.length)) (files_field ti.files)
      else files_field ti.files in
    Fields.field (codes "name") (Value.str ti.name) (
      Fields.field (codes "piece length") (Value.int (ℤ.pos ti.piece_length))
        (Fields.field (codes "pieces") (Value.bytes ti.pieces) more))

-- `ToBencodedString`; `none` is its error.
unfoldable pub to_bencoded_string : TorrentInfo → Option Bytes
unfolding encode info_dict
to_bencoded_string ti = encode (Value.dict (info_dict ti))

-- `Torrent`
pub record Torrent : Type 0 where
  pub announce : Bytes
  pub announce_list : List Bytes
  pub info : DecodedInfo

-- `announce.([]interface{})[0]`, as text
unfoldable pub first_announce : Value → Outcome Bytes
first_announce (Value.list (Items.cons a is)) = must_bytes (some a)
first_announce v = panic

unfoldable pub read_announces : Items → Outcome (List Bytes)
unfolding first_announce
read_announces Items.nil = ok []
read_announces (Items.cons a is) = do b ← first_announce a; rest ← read_announces is; ok (b ∷ rest)

unfoldable pub announces_of : Option Value → Outcome (List Bytes)
unfolding read_announces
announces_of none = ok []
announces_of (some v) = must_list (some v) >>= λ is. read_announces is

-- `contents.(map[string]interface{})` and the rest of `ParseTorrentFile`
unfoldable pub read_torrent : Value → Outcome Torrent
unfolding lookup new_torrent_info announces_of
read_torrent contents = do
  dict ← must_dict (some contents)
  info ← must_dict (lookup (codes "info") dict)
  announce ← must_bytes (lookup (codes "announce") dict)
  ti ← new_torrent_info info
  announce_list ← announces_of (lookup (codes "announce-list") dict)
  ok (record { announce = announce; announce_list = announce_list; info = ti })

-- `ParseTorrentFile` for a file with these bytes, and what its buffer holds behind them. An error
-- of the decoder panics.
unfoldable pub parse_torrent_file : (spare content : Bytes) → Outcome Torrent
unfolding decode read_torrent
parse_torrent_file spare content = elim (decode spare content) [
  | ok contents ↦ read_torrent contents
  | err e ↦ panic
  | panic ↦ panic
  | no_fuel ↦ no_fuel
]

module _ (sha1 : Bytes → Bytes) where
  -- `TorrentInfo.CalcInfoHash`
  unfoldable pub calc_info_hash : TorrentInfo → Option Bytes
  unfolding to_bencoded_string
  calc_info_hash ti = elim (to_bencoded_string ti) [ none ↦ none | some b ↦ some (sha1 b) ]

  -- the entry of the file that is encoded again
  unfoldable pub hash_info : Value → Outcome Bytes
  unfolding lookup encode
  hash_info (Value.dict fs) = elim (lookup (codes "info") fs) [
    | none ↦ err no_info
    | some info ↦ elim (encode info) [ none ↦ err no_info | some b ↦ ok (sha1 b) ]
  ]
  hash_info v = err not_a_dict

  -- `CalcInfoHash` of pkg/util, for a file with these bytes
  unfoldable pub calc_file_info_hash : (spare content : Bytes) → Outcome Bytes
  unfolding decode hash_info
  calc_file_info_hash spare content = decode spare content >>= λ v. hash_info v
