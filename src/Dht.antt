-- ===== src/Dht.antt =====
-- pkg/dht/queries.go: the queries of a DHT node and what it reads out of the answers.
pub mod Table
pub mod Client
pub mod Responses
pub mod Nodes
use torrent_client.Common.{
  ℕ, zero, suc, ◌+◌, ◌*◌, ◌/◌, ◌||◌, Option, some, List, [], ◌∷◌, ◌++◌, leb, ◌==◌, Bytes, codes,
  length, get_or, take, drop,
}
use torrent_client.Bencode.Decimal.{format}
use torrent_client.Bencode.Encode.{encode}
use torrent_client.Bencode.Value.{Value, Fields, lookup}
use torrent_client.Common.Outcome.{
  panic, Outcome, ok, err, check, guard, not_a_dict, not_a_response, bad_id_size, ◌>>=◌, ◌>>◌,
}
use torrent_client.Extension.{as_dict}
use torrent_client.Torrent.Codec.{must_bytes}
use torrent_client.Wire.{uint16}

pub record DhtPeer : Type 0 where
  pub host : Bytes
  pub port : Bytes

-- `DHTNode`, with its `DHTNodeId`
pub record DhtNode : Type 0 where
  pub id : Bytes
  pub peer : DhtPeer

pub record FindNodeResponse : Type 0 where
  pub id : Bytes
  pub nodes : List DhtNode

-- the map of `serializeQuery`
unfoldable pub query_dict : Fields → (query_name : Bytes) → Fields
query_dict args query_name = Fields.field (codes "t") (Value.str (codes "aa")) (
    Fields.field (codes "y") (Value.str (codes "q")) (
      Fields.field (codes "q") (Value.str query_name)
        (Fields.field (codes "a") (Value.dict args) Fields.end)))

-- `serializeQuery`; `none` is its error.
unfoldable pub serialize_query : Fields → (query_name : Bytes) → Option Bytes
unfolding query_dict encode
serialize_query args query_name = encode (Value.dict (query_dict args query_name))

-- `PingQuery.Serialize`
unfoldable pub serialize_ping : (id : Bytes) → Option Bytes
unfolding serialize_query
serialize_ping id =
    serialize_query (Fields.field (codes "id") (Value.bytes id) Fields.end) (codes "ping")

-- `GetPeersQuery.Serialize`
unfoldable pub serialize_get_peers : (id info_hash : Bytes) → Option Bytes
unfolding serialize_query
serialize_get_peers id info_hash =
    serialize_query
      (Fields.field (codes "id") (Value.bytes id)
        (Fields.field (codes "info_hash") (Value.bytes info_hash) Fields.end))
      (codes "get_peers")

-- `FindNodeQuery.Serialize`
unfoldable pub serialize_find_node : (id target : Bytes) → Option Bytes
unfolding serialize_query
serialize_find_node id target =
    serialize_query
      (Fields.field (codes "id") (Value.bytes id)
        (Fields.field (codes "target") (Value.bytes target) Fields.end))
      (codes "find_node")

-- `d["y"].([]byte)[0]`
unfoldable pub first_byte : Bytes → Outcome ℕ
first_byte [] = panic
first_byte (b ∷ bs) = ok b

-- `resDict, ok := d["r"].(map[string]interface{})`
unfoldable pub response_of : Option Value → Outcome Fields
response_of (some (Value.dict fs)) = ok fs
response_of _ = err not_a_dict

-- `getResponseDict`
unfoldable pub get_response_dict : Value → Outcome Fields
unfolding as_dict lookup first_byte response_of
get_response_dict r = do
  d ← as_dict r
  y ← must_bytes (lookup (codes "y") d)
  response_type ← first_byte y
  guard (response_type == b'r' || response_type == b'e') not_a_response
  response_of (lookup (codes "r") d)

-- the id of both answers
unfoldable pub read_id : Fields → Outcome Bytes
unfolding lookup
read_id res_dict = do
  id ← must_bytes (lookup (codes "id") res_dict)
  guard (length id == 20) bad_id_size
  ok id

-- `ParsePingResponse`
unfoldable pub parse_ping_response : Value → Outcome Bytes
unfolding get_response_dict read_id
parse_ping_response r = get_response_dict r >>= λ d. read_id d

-- `parsePeerInfo`, for six bytes
unfoldable pub parse_peer_info : Bytes → Outcome DhtPeer
unfolding format uint16
parse_peer_info bs = do
  port ← uint16 (drop 4 bs)
  ok (record {
    host =
        format (get_or bs 0 0)
        ++ (b'.'
            ∷ (format (get_or bs 1 0)
                ++ (b'.' ∷ (format (get_or bs 2 0) ++ (b'.' ∷ format (get_or bs 3 0))))));
    port = format port;
  })

-- `parseNodeInfo`, for 26 bytes
unfoldable pub parse_node_info : Bytes → Outcome DhtNode
unfolding parse_peer_info
parse_node_info bs = do
  peer ← parse_peer_info (drop 20 bs)
  ok (record { id = take 20 bs; peer = peer })

-- The loop of `ParseFindNodeResponse`, for `n` nodes from `i` on.
unfoldable pub read_nodes : (nodes : Bytes) (i n : ℕ) → Outcome (List DhtNode)
unfolding parse_node_info
read_nodes nodes i zero = ok []
read_nodes nodes i (suc n) = do
  check (leb 26 (length (drop (i * 26) nodes)))
  node ← parse_node_info (take 26 (drop (i * 26) nodes))
  rest ← read_nodes nodes (i + 1) n
  ok (node ∷ rest)

-- `ParseFindNodeResponse`
unfoldable pub parse_find_node_response : Fields → Outcome FindNodeResponse
unfolding get_response_dict read_id lookup read_nodes
parse_find_node_response r = do
  res_dict ← get_response_dict (Value.dict r)
  id ← read_id res_dict
  nodes ← must_bytes (lookup (codes "nodes") res_dict)
  ns ← read_nodes nodes 0 (length nodes / 26)
  ok (record { id = id; nodes = ns })

-- `GetAddress`
unfoldable pub get_address : DhtPeer → Bytes
get_address p = p.host ++ (b':' ∷ p.port)
