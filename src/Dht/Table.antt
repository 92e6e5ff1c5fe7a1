-- ===== src/Dht/Table.antt =====
-- pkg/dht/routingtable.go: buckets of nodes. A map is a list of its entries in the order in which
-- a `range` over it goes. `XNOR` and `And` of the package go-bitwise are parameters.
use Prim.Native.Nat.{bit_xor}
pub mod Laws
pub mod Last
pub mod Split
use torrent_client.Common.{
  ℕ, zero, suc, ◌+◌, Bool, true, false, ◌&&◌, ◌||◌, Option, none, some, List, [], ◌∷◌, ltb, ◌==◌,
  if◌then◌else◌, Bytes, length, get_or, replicate,
}
use torrent_client.Bencode.Value.{eq_bytes}
use torrent_client.Bitfield.{set_bit_field_piece}
use torrent_client.Common.Outcome.{Outcome, ok, panic, no_fuel, ◌>>=◌}
use torrent_client.Dht.{DhtNode}

-- `RoutingBucket`: the nodes, each under its id
pub record RoutingBucket : Type 0 where
  pub nodes : List DhtNode

pub record RoutingTable : Type 0 where
  pub node : Bytes
  pub buckets : List (Bytes × RoutingBucket)
  pub mask : Bytes
  pub mask_counter : ℕ

pub record DhtNodeDistance : Type 0 where
  pub node : DhtNode
  pub distance : Bytes

-- `NewRoutingBucket`
unfoldable pub new_routing_bucket : RoutingBucket
new_routing_bucket = record { nodes = [] }

-- `NewRoutingTable`
unfoldable pub new_routing_table : (home_node : Bytes) → RoutingTable
unfolding new_routing_bucket
new_routing_table home_node = record {
  node = home_node;
  buckets = (replicate 20 0, new_routing_bucket) ∷ [];
  mask = replicate 20 0;
  mask_counter = 0;
}

-- the loop of `Distance`, over `n` bytes from `i` on
unfoldable pub xor_from : Bytes → Bytes → (i n : ℕ) → Bytes
xor_from a b i zero = []
xor_from a b i (suc n) = bit_xor (get_or a i 0) (get_or b i 0) ∷ xor_from a b (i + 1) n

-- `Distance`: the first byte stays 0.
unfoldable pub distance : Bytes → DhtNode → DhtNodeDistance
unfolding xor_from
distance n1 n2 = record { node = n2; distance = 0 ∷ xor_from n1 n2.id 1 19 }

-- the loop of `Less`, over `n` bytes from `i` on: both sides are `n1`'s.
unfoldable pub less_from : Bytes → (i n : ℕ) → Bool
less_from d i zero = false
less_from d i (suc n) =
    let rest = less_from d (i + 1) n in
    if get_or d i 0 == get_or d i 0 then rest else ltb (get_or d i 0) (get_or d i 0)

-- `Less`; the other node may be nil, and is not looked at.
unfoldable pub less : DhtNodeDistance → Option DhtNodeDistance → Bool
unfolding less_from
less n1 n2 = less_from n1.distance 1 19

-- the loop of `FindClosestNode`: `n` hides the argument of that name.
unfoldable pub find_loop :
    List DhtNode → (shortest : Option DhtNodeDistance) → Option DhtNodeDistance
unfolding distance less
find_loop [] shortest = shortest
find_loop (n ∷ nodes) shortest =
    let dist = distance n.id n in
    let none_yet : Bool = elim shortest [ none ↦ true | some s ↦ false ] in
    find_loop nodes (if less dist shortest || none_yet then some dist else shortest)

-- `FindClosestNode`
unfoldable pub find_closest_node : RoutingBucket → (n : Bytes) → Outcome DhtNode
unfolding find_loop
find_closest_node b n = elim (find_loop b.nodes none) [ none ↦ panic | some s ↦ ok s.node ]

-- `Nodes[n.DHTNodeId] = n`
unfoldable pub put_entry : DhtNode → List DhtNode → List DhtNode
unfolding eq_bytes
put_entry n [] = n ∷ []
put_entry n (m ∷ nodes) = if eq_bytes m.id n.id then n ∷ nodes else m ∷ put_entry n nodes

-- `_, exists := Nodes[id]`
unfoldable pub has_node : (id : Bytes) → List DhtNode → Bool
unfolding eq_bytes
has_node id [] = false
has_node id (m ∷ nodes) = eq_bytes m.id id || has_node id nodes

-- `AddNode`
unfoldable pub add_node : RoutingBucket → DhtNode → RoutingBucket
unfolding put_entry
add_node b n = if ltb (length b.nodes) 8 then record { nodes = put_entry n b.nodes } else b

-- `buckets[k]`, and `buckets[k] = b`
unfoldable pub find_bucket : Bytes → List (Bytes × RoutingBucket) → Option RoutingBucket
unfolding eq_bytes
find_bucket k [] = none
find_bucket k ((j, b) ∷ l) = if eq_bytes j k then some b else find_bucket k l

unfoldable pub put_bucket :
    Bytes → RoutingBucket → List (Bytes × RoutingBucket) → List (Bytes × RoutingBucket)
unfolding eq_bytes
put_bucket k b [] = (k, b) ∷ []
put_bucket k b ((j, c) ∷ l) = if eq_bytes j k then (j, b) ∷ l else (j, c) ∷ put_bucket k b l

-- what a lookup in a bucket finds: a key that is missing gives a bucket with a nil map.
abbrev pub nodes_of : Option RoutingBucket → List DhtNode
nodes_of none = []
nodes_of (some b) = b.nodes

-- the loop of `SplitBucket`
unfoldable pub put_nodes :
    (put : RoutingTable → DhtNode → Outcome RoutingTable)
    → RoutingTable
    → List DhtNode
    → Outcome RoutingTable
put_nodes put t [] = ok t
put_nodes put t (n ∷ nodes) = put t n >>= λ t'. put_nodes put t' nodes

-- The table of `SplitBucket` before its loop.
unfoldable pub split_table : RoutingTable → RoutingTable
unfolding put_bucket set_bit_field_piece new_routing_bucket
split_table t =
    let mask = set_bit_field_piece t.mask t.mask_counter in
    record t {
      mask = mask;
      buckets = put_bucket mask new_routing_bucket (put_bucket t.mask new_routing_bucket t.buckets);
    }

-- `SplitBucket`
unfoldable pub split_bucket :
    (put : RoutingTable → DhtNode → Outcome RoutingTable) → RoutingTable → Outcome RoutingTable
unfolding find_bucket put_nodes split_table
split_bucket put t = put_nodes put (split_table t) (nodes_of (find_bucket t.mask t.buckets))

module _ (xnor and_bytes : Bytes → Bytes → Bytes) where
  -- the key of a node's bucket, and whether it is the last one
  unfoldable pub place_node : RoutingTable → DhtNode → Bytes × Bool
  unfolding eq_bytes
  place_node t n =
      let dst = and_bytes (xnor n.id t.node) t.mask in
      if length t.buckets == 0 then (t.mask, true) else (dst, eq_bytes dst t.mask)

  -- `bucket.Nodes[n.DHTNodeId] = n`: a nil map panics.
  unfoldable pub insert_node :
      RoutingTable → (key : Bytes) → Option RoutingBucket → DhtNode → Outcome RoutingTable
  unfolding put_bucket put_entry
  insert_node t key none n = panic
  insert_node t key (some b) n =
      ok (record t { buckets = put_bucket key (record { nodes = put_entry n b.nodes }) t.buckets })

  -- `PutNode` behind the choice of the bucket
  unfoldable pub put_at :
      (put : RoutingTable → DhtNode → Outcome RoutingTable)
      → RoutingTable
      → DhtNode
      → (key : Bytes) (last_bucket : Bool) → Outcome RoutingTable
  unfolding find_bucket has_node insert_node split_bucket
  put_at put t n key last_bucket =
      let bucket = find_bucket key t.buckets in
      elim (has_node n.id (nodes_of bucket)) [
        | true ↦ ok t
        | false ↦ elim ((length (nodes_of bucket) == 8) && last_bucket) [
          | true ↦ split_bucket put t >>= λ t'. put t' n
          | false ↦ insert_node t key bucket n
        ]
      ]

  -- `PutNode`
  unfoldable pub put_node : (fuel : ℕ) → RoutingTable → DhtNode → Outcome RoutingTable
  unfolding place_node put_at
  put_node zero t n = no_fuel
  put_node (suc fuel) t n = put_at (put_node fuel) t n (place_node t n).0 (place_node t n).1
