-- ===== src/Dht/Table/Laws.antt =====
-- A bucket, and the node that it takes for the closest (pkg/dht/routingtable.go).
use torrent_client.Common.{
  ℕ, zero, suc, ◌+◌, ◌≤◌, ◌≡◌, refl, ap, inl, inr, false, ◌&&◌, ◌||◌, none, some, List, [], ◌∷◌,
  ◌++◌, arith, ltb, ==_refl, Bool-cases, Bytes, length, get_or,
}
use torrent_client.Bencode.Encode.Sorting.{eq_bytes_iff}
use torrent_client.Bencode.Value.{eq_bytes}
use torrent_client.Common.Outcome.{Outcome, ok, panic}
use torrent_client.Dht.{DhtNode}
use torrent_client.Dht.Table.{
  RoutingBucket, DhtNodeDistance, less, less_from, find_loop, find_closest_node, distance,
  put_entry, has_node, add_node,
}

pub put_entry_new :
    (n : DhtNode) (nodes : List DhtNode)
    → has_node n.id nodes ≡ false
    → put_entry n nodes ≡ nodes ++ (n ∷ [])
unfolding put_entry has_node
put_entry_new n [] h = refl
put_entry_new n (m ∷ nodes) h = elim (Bool-cases (eq_bytes m.id n.id)) [
  | inl same ↦ absurd (ground arith)
  | inr other ↦ rw other (ap (◌∷◌ m) (put_entry_new n nodes (rw other at h)))
]

length-put_entry :
    (n : DhtNode) (nodes : List DhtNode) → length (put_entry n nodes) ≤ length nodes + 1
unfolding put_entry
length-put_entry n [] = omega arith
length-put_entry n (m ∷ nodes) = ground (arith, length-put_entry n nodes)

-- A node is in a bucket after it was put there, and the others are where they were.
has_node-put_entry :
    (n : DhtNode) (nodes : List DhtNode) (id : Bytes)
    → has_node id (put_entry n nodes) ≡ (eq_bytes n.id id || has_node id nodes)
unfolding put_entry has_node
has_node-put_entry n [] id = refl
has_node-put_entry n (m ∷ nodes) id = ground (
  arith,
  has_node-put_entry n nodes id,
  eq_bytes_iff m.id n.id,
  eq_bytes_iff m.id id,
  eq_bytes_iff n.id id,
)

-- A bucket with at most eight nodes has at most eight when `AddNode` has run. It then holds the ids
-- that it held, and the new one if there were fewer than eight nodes.
pub add_node-bounded :
    (b : RoutingBucket) (n : DhtNode)
    → length b.nodes ≤ 8
    → (length (add_node b n).nodes ≤ 8)
      × ((id : Bytes)
          → has_node id (add_node b n).nodes
            ≡ ((ltb (length b.nodes) 8 && eq_bytes n.id id) || has_node id b.nodes))
unfolding add_node
add_node-bounded b n h = elim (Bool-cases (ltb (length b.nodes) 8)) [
  | inr full ↦ rw full (h, λ id. refl)
  | inl room ↦
      let l = length-put_entry n b.nodes in rw room (ground arith, has_node-put_entry n b.nodes)
]

less_from-false : (d : Bytes) (i n : ℕ) → less_from d i n ≡ false
unfolding less_from
less_from-false d i zero = refl
less_from-false d i (suc n) = rw (==_refl (get_or d i 0)) (less_from-false d (i + 1) n)

keeps_first : (nodes : List DhtNode) (s : DhtNodeDistance) → find_loop nodes (some s) ≡ some s
unfolding find_loop less
keeps_first [] s = refl
keeps_first (n ∷ nodes) s =
    rw (less_from-false (distance n.id n).distance 1 19) (keeps_first nodes s)

-- the first node of the iteration
abbrev pub first_node : List DhtNode → Outcome DhtNode
first_node [] = panic
first_node (n ∷ nodes) = ok n

-- `FindClosestNode` takes the node that the iteration over the map comes to first, whatever the id
-- that is looked for, and panics for a bucket with no nodes.
pub find_closest_node-first :
    (b : RoutingBucket) (id : Bytes) → find_closest_node b id ≡ first_node b.nodes
unfolding find_closest_node less find_loop distance
find_closest_node-first b id = go b.nodes
  where
    go :
        (nodes : List DhtNode)
        → elim (find_loop nodes none) [ none ↦ panic | some s ↦ ok s.node ] ≡ first_node nodes
    go [] = refl
    go (n ∷ nodes) =
        rw (less_from-false (distance n.id n).distance 1 19, keeps_first nodes (distance n.id n))
