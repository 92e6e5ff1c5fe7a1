-- ===== src/Dht/Table/Last.antt =====
-- Nodes that go into the last bucket (pkg/dht/routingtable.go).
use torrent_client.Common.{
  ℕ, suc, ◌+◌, ◌≤◌, ◌<◌, ◌≡◌, refl, ap, ◌∙◌, inl, inr, true, false, ◌||◌, some, List, [], ◌∷◌, ◌++◌,
  append_assoc, append-nil, arith, ◌==◌, Bool-cases, Bytes, length, length-append, All,
}
use torrent_client.Bencode.Encode.Sorting.{eq_bytes_iff}
use torrent_client.Bencode.Value.{eq_bytes}
use torrent_client.Common.Outcome.{Outcome, ok}
use torrent_client.Dht.{DhtNode}
use torrent_client.Dht.Table.{
  RoutingBucket, RoutingTable, has_node, find_bucket, put_bucket, put_nodes, place_node,
  insert_node, put_at, put_node,
}
use torrent_client.Dht.Table.Laws.{put_entry_new}

-- The ids are pairwise different, as the keys of a map are.
abbrev pub DistinctIds : List DhtNode → Type 0
DistinctIds [] = Unit
DistinctIds (n ∷ nodes) = (has_node n.id nodes ≡ false) × DistinctIds nodes

pub find_bucket-put_bucket :
    (k : Bytes) (b : RoutingBucket) (l : List (Bytes × RoutingBucket))
    → find_bucket k (put_bucket k b l) ≡ some b
unfolding find_bucket put_bucket
find_bucket-put_bucket k b [] = let e = (eq_bytes_iff k k).1 refl in rw e
find_bucket-put_bucket k b ((j, c) ∷ l) = elim (Bool-cases (eq_bytes j k)) [
  | inl same ↦ rw (same, find_bucket, same)
  | inr other ↦ rw (other, find_bucket, other) (find_bucket-put_bucket k b l)
]

pub put_bucket_some :
    (k : Bytes) (b : RoutingBucket) (l : List (Bytes × RoutingBucket))
    → (length (put_bucket k b l) == 0) ≡ false
unfolding put_bucket
put_bucket_some k b [] = refl
put_bucket_some k b ((j, c) ∷ l) = elim (Bool-cases (eq_bytes j k)) [
  | inl same ↦ rw same (ground arith)
  | inr other ↦ rw other (ground arith)
]

-- The ids of the first list and the second are different.
abbrev pub Fresh : (nodes before : List DhtNode) → Type 0
Fresh nodes before = All (λ m. has_node m.id before ≡ false) nodes

pub Fresh-nil : (nodes : List DhtNode) → Fresh nodes []
unfolding has_node
Fresh-nil [] = tt
Fresh-nil (m ∷ nodes) = (refl, Fresh-nil nodes)

has_node-snoc :
    (id : Bytes) (nodes : List DhtNode) (n : DhtNode)
    → has_node id (nodes ++ (n ∷ [])) ≡ (has_node id nodes || eq_bytes n.id id)
unfolding has_node
has_node-snoc id [] n = ground arith
has_node-snoc id (m ∷ nodes) n = ground (arith, has_node-snoc id nodes n)

Fresh-snoc :
    (nodes before : List DhtNode) (n : DhtNode)
    → Fresh nodes before
    → has_node n.id nodes ≡ false
    → Fresh nodes (before ++ (n ∷ []))
unfolding has_node
Fresh-snoc [] before n f h = tt
Fresh-snoc (m ∷ nodes) before n (f, fs) h = (
  ground (arith, has_node-snoc m.id before n, eq_bytes_iff m.id n.id, eq_bytes_iff n.id m.id),
  Fresh-snoc nodes before n fs (ground arith),
)

module _ (xnor and_bytes : Bytes → Bytes → Bytes) where
  -- The node belongs into the last bucket.
  abbrev pub IsLast : (home mask : Bytes) → DhtNode → Type 0
  IsLast home mask n = and_bytes (xnor n.id home) mask ≡ mask

  -- The bucket of the mask holds `nodes`.
  pub record Holds (t : RoutingTable) (nodes : List DhtNode) : Type 0 where
    pub some_bucket : (length t.buckets == 0) ≡ false
    pub stored : find_bucket t.mask t.buckets ≡ some (record { nodes = nodes })

  place_last :
      (t : RoutingTable) (n : DhtNode) (nodes : List DhtNode)
      → Holds t nodes
      → IsLast t.node t.mask n
      → place_node xnor and_bytes t n ≡ (t.mask, true)
  unfolding place_node
  place_last t n nodes h l = let e = (eq_bytes_iff t.mask t.mask).1 refl in rw (h.some_bucket, l, e)

  -- A node goes into the last bucket.
  pub put_node-last :
      (fuel : ℕ) (t : RoutingTable) (n : DhtNode) (nodes : List DhtNode)
      → Holds t nodes
      → IsLast t.node t.mask n
      → put_node xnor and_bytes (suc fuel) t n
        ≡ put_at xnor and_bytes (put_node xnor and_bytes fuel) t n t.mask true
  unfolding put_node
  put_node-last fuel t n nodes h l =
      ap (λ p. put_at xnor and_bytes (put_node xnor and_bytes fuel) t n p.0 p.1)
        (place_last t n nodes h l)

  -- A bucket that is not full takes the node.
  put_node-room :
      (fuel : ℕ) (t : RoutingTable) (n : DhtNode) (nodes : List DhtNode)
      → Holds t nodes
      → IsLast t.node t.mask n
      → length nodes < 8
      → has_node n.id nodes ≡ false
      → put_node xnor and_bytes (suc fuel) t n
        ≡ ok (record t {
          buckets = put_bucket t.mask (record { nodes = nodes ++ (n ∷ []) }) t.buckets;
        })
  unfolding put_at insert_node
  put_node-room fuel t n nodes h l lt new =
      let room : (length nodes == 8) ≡ false = ground arith in
      put_node-last fuel t n nodes h l
      ∙ rw (put_at, h.stored, new, h.stored, room, h.stored, insert_node, put_entry_new n nodes new)

  -- What putting a node leaves besides its bucket.
  pub record Puts (t : RoutingTable) (nodes : List DhtNode) (r : Outcome RoutingTable)
      : Type 0 where
    pub table : RoutingTable
    pub puts : r ≡ ok table
    pub same_node : table.node ≡ t.node
    pub same_mask : table.mask ≡ t.mask
    pub same_counter : table.mask_counter ≡ t.mask_counter
    pub holds : Holds table nodes

  pub put_nodes-Puts :
      (fuel : ℕ) (t : RoutingTable) (before nodes : List DhtNode)
      → Holds t before
      → length before + length nodes ≤ 8
      → All (IsLast t.node t.mask) nodes
      → Fresh nodes before
      → DistinctIds nodes
      → Puts t (before ++ nodes) (put_nodes (put_node xnor and_bytes (suc fuel)) t nodes)
  unfolding put_nodes
  put_nodes-Puts fuel t before [] h le l f d = record {
    table = t;
    puts = refl;
    same_node = refl;
    same_mask = refl;
    same_counter = refl;
    holds = rw (append-nil before) h;
  }
  put_nodes-Puts fuel t before (n ∷ nodes) h le (l, ls) (f, fs) (d, ds) =
      let b : RoutingBucket = record { nodes = before ++ (n ∷ []) } in
      let t' : RoutingTable = record t { buckets = put_bucket t.mask b t.buckets } in
      let h' : Holds t' (before ++ (n ∷ [])) = record {
        some_bucket = put_bucket_some t.mask b t.buckets;
        stored = find_bucket-put_bucket t.mask b t.buckets;
      } in
      let rest =
        put_nodes-Puts fuel t' (before ++ (n ∷ [])) nodes h'
          (omega (arith, length-append before (n ∷ []))) ls (Fresh-snoc nodes before n fs d) ds in
      let step = put_node-room fuel t n before h l (omega arith) f in
      record {
        table = rest.table;
        puts = rw step rest.puts;
        same_node = rest.same_node;
        same_mask = rest.same_mask;
        same_counter = rest.same_counter;
        holds = rw (← append_assoc before (n ∷ []) nodes) rest.holds;
      }
