-- ===== src/Dht/Client.antt =====
-- pkg/dht/dht.go: a DHT client. The network is a parameter: what resolving and dialling an address
-- come to, and the exchange of a message for an answer, which may fail too. So are the random ids.
pub mod Unusable
use torrent_client.Wire.{put_uint64, put_uint32}
use torrent_client.Common.{
  ℕ, ◌-◌, Option, none, some, List, [], ◌∷◌, ◌++◌, Bytes, codes, length, take, replicate,
}
use torrent_client.Bencode.Decode.{decode}
use torrent_client.Common.Outcome.{
  Outcome, ok, err, panic, no_fuel, read_failed, write_failed, Ensures, ◌>>=◌,
}
use torrent_client.Dht.{
  DhtPeer, DhtNode, FindNodeResponse, serialize_ping, serialize_get_peers, serialize_find_node,
  parse_ping_response, parse_find_node_response, get_address,
}
use torrent_client.Dht.Table.{RoutingBucket, add_node, find_closest_node}
use torrent_client.Torrent.Codec.{must_dict}

-- `DHTNodeClient`: the pointer to the bucket may be nil.
pub record DhtNodeClient : Type 0 where
  pub node_id : Bytes
  pub routing_bucket : Option RoutingBucket

-- What `ResolveUDPAddr` and `DialUDP` come to: the first one fails, the second one fails and gives a
-- nil pointer, or there is a connection, with the answer to a message.
pub data Dialled : Type 0 where
  unresolved refused : Dialled
  dialled : (exchange : Bytes → Option Bytes) → Dialled

abbrev pub Network : Type 0
Network = Bytes → Dialled

abbrev pub or_error : Option Bytes → Outcome Bytes
or_error none = err read_failed
or_error (some b) = ok b

-- `SendQuery` with what the address comes to. The deadline is set before the error of `DialUDP` is
-- looked at, and a nil pointer panics there. The buffer has 512 bytes.
unfoldable pub exchange_query : Dialled → (q : Option Bytes) → Outcome Bytes
exchange_query unresolved q = err read_failed
exchange_query refused q = panic
exchange_query (dialled exchange) none = err write_failed
exchange_query (dialled exchange) (some msg) = or_error (exchange msg) >>= λ b. ok (take 512 b)

module _ (net : Network) where
  -- `SendQuery`
  unfoldable pub send_query : (q : Option Bytes) → (addr : Bytes) → Outcome Bytes
  unfolding exchange_query
  send_query q addr = exchange_query (net addr) q

  -- `ping`, and `Ping`, which returns what it returns. The answer is the front of the buffer.
  unfoldable pub ping : DhtNodeClient → (address : Bytes) → Outcome Bytes
  unfolding send_query serialize_ping decode parse_ping_response
  ping n address = do
    buf ← send_query (serialize_ping n.node_id) address
    res_decoded ← decode (replicate (512 - length buf) 0) buf
    parse_ping_response res_decoded

  -- `n.RoutingBucket.AddNode`: a nil pointer panics.
  unfoldable pub add_to_bucket : DhtNodeClient → DhtNode → Outcome DhtNodeClient
  unfolding add_node
  add_to_bucket n node = elim n.routing_bucket [
    | none ↦ panic
    | some b ↦ ok (record n { routing_bucket = some (add_node b node) })
  ]

  -- `checkAddress`, for what `ping` comes back with
  unfoldable pub checked_address : DhtNodeClient → DhtPeer → Outcome Bytes → Outcome DhtNodeClient
  unfolding add_to_bucket
  checked_address n p (ok id) = add_to_bucket n (record { id = id; peer = p })
  checked_address n p (err e) = ok n
  checked_address n p panic = panic
  checked_address n p no_fuel = no_fuel

  -- `checkAddress`
  unfoldable pub check_address : DhtNodeClient → DhtPeer → Outcome DhtNodeClient
  unfolding ping get_address checked_address
  check_address n p = checked_address n p (ping n (get_address p))

  -- `NewDHTClient`, with `initRoutingBucket`, for a random id
  unfoldable pub new_dht_client : (node_id : Bytes) → Outcome DhtNodeClient
  unfolding check_address
  new_dht_client node_id =
      check_address (record { node_id = node_id; routing_bucket = none })
        (record { host = codes "router.bittorrent.com"; port = codes "6881" })

  -- `n.FindClosestNode`: a nil pointer panics.
  unfoldable pub closest_node : DhtNodeClient → Bytes → Outcome DhtNode
  unfolding find_closest_node
  closest_node n id = elim n.routing_bucket [ none ↦ panic | some b ↦ find_closest_node b id ]

  -- `GetPeers`
  unfoldable pub get_peers : DhtNodeClient → (info_hash : Bytes) → Outcome Bytes
  unfolding closest_node send_query serialize_get_peers get_address
  get_peers n info_hash = do
    node ← closest_node n info_hash
    send_query (serialize_get_peers n.node_id info_hash) (get_address node.peer)

  -- `FindNode`
  unfoldable pub find_node : DhtNodeClient → (node : Bytes) → Outcome FindNodeResponse
  unfolding closest_node send_query serialize_find_node get_address decode parse_find_node_response
  find_node n node = do
    closest ← closest_node n node
    res ← send_query (serialize_find_node n.node_id node) (get_address closest.peer)
    res_dict ← decode (replicate (512 - length res) 0) res
    dict ← must_dict (some res_dict)
    parse_find_node_response dict

  -- the loop of `RefreshBucket`
  unfoldable pub check_nodes : DhtNodeClient → List DhtNode → Outcome DhtNodeClient
  unfolding check_address
  check_nodes n [] = ok n
  check_nodes n (node ∷ nodes) = check_address n node.peer >>= λ n'. check_nodes n' nodes

  -- `RefreshBucket`, for a random id
  unfoldable pub refresh_bucket : (random_id : Bytes) → DhtNodeClient → Outcome DhtNodeClient
  unfolding find_node check_nodes
  refresh_bucket random_id n = do r ← find_node n random_id; check_nodes n r.nodes

-- `GetRandNodeID`, for the numbers that `rand` gives
unfoldable pub get_rand_node_id : (a b c : ℕ) → Bytes
unfolding put_uint64 put_uint32
get_rand_node_id a b c = put_uint64 a ++ (put_uint64 b ++ put_uint32 c)
