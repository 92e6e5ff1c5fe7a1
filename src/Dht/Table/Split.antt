-- ===== src/Dht/Table/Split.antt =====
-- Splitting the last bucket a second time (pkg/dht/routingtable.go).
use torrent_client.Common.{
  ℕ, zero, suc, ◌<◌, ◌≡◌, refl, ◌∙◌, true, false, some, List, [], ◌∷◌, arith, ◌==◌, Bytes, length,
  All,
}
use torrent_client.Bitfield.{set_bit_field_piece}
use torrent_client.Common.Outcome.{no_fuel, ◌>>=◌}
use torrent_client.Dht.{DhtNode}
use torrent_client.Dht.Table.{
  RoutingTable, new_routing_bucket, has_node, find_bucket, put_bucket, split_table, split_bucket,
  put_nodes, put_at, put_node,
}
use torrent_client.Dht.Table.Last.{
  DistinctIds, find_bucket-put_bucket, put_bucket_some, Fresh-nil, IsLast, Holds, put_node-last,
  Puts, put_nodes-Puts,
}

module _ (xnor and_bytes : Bytes → Bytes → Bytes) where
  -- The last bucket is full, its mask has the bit already that a split sets, and the node that is
  -- put belongs into it.
  pub record IsStuck (t : RoutingTable) (nodes : List DhtNode) (n : DhtNode) : Type 0 where
    pub some_bucket : (length t.buckets == 0) ≡ false
    pub stored : find_bucket t.mask t.buckets ≡ some (record { nodes = nodes })
    pub full : length nodes ≡ 8
    pub distinct : DistinctIds nodes
    pub last : All (IsLast xnor and_bytes t.node t.mask) nodes
    pub bit_set : set_bit_field_piece t.mask t.mask_counter ≡ t.mask
    pub new_last : IsLast xnor and_bytes t.node t.mask n
    pub new : has_node n.id nodes ≡ false

  split-Puts :
      (fuel : ℕ) (t : RoutingTable) (nodes : List DhtNode) (n : DhtNode)
      → IsStuck t nodes n
      → Puts xnor and_bytes t nodes (split_bucket (put_node xnor and_bytes (suc fuel)) t)
  unfolding split_bucket split_table new_routing_bucket
  split-Puts fuel t nodes n s =
      let b = new_routing_bucket in
      let t' : RoutingTable = record t {
        buckets = put_bucket t.mask b (put_bucket t.mask b t.buckets);
      } in
      let h : Holds xnor and_bytes t' [] = record {
        some_bucket = put_bucket_some t.mask b (put_bucket t.mask b t.buckets);
        stored = find_bucket-put_bucket t.mask b (put_bucket t.mask b t.buckets);
      } in
      let run =
        put_nodes-Puts xnor and_bytes fuel t' [] nodes h (omega (arith, s.full)) s.last
          (Fresh-nil nodes) s.distinct in
      rw (s.bit_set, s.stored)
        (record {
          table = run.table;
          puts = run.puts;
          same_node = run.same_node;
          same_mask = run.same_mask;
          same_counter = run.same_counter;
          holds = run.holds;
        })

  -- A full last bucket is split again and again.
  put_node-full :
      (fuel : ℕ) (t : RoutingTable) (nodes : List DhtNode) (n : DhtNode)
      → IsStuck t nodes n
      → put_node xnor and_bytes (suc fuel) t n ≡ (
          split_bucket (put_node xnor and_bytes fuel) t >>= λ t'. put_node xnor and_bytes fuel t' n)
  unfolding put_at
  put_node-full fuel t nodes n s =
      let full : (length nodes == 8) ≡ true = ground (arith, s.full) in
      put_node-last xnor and_bytes fuel t n nodes
        (record { some_bucket = s.some_bucket; stored = s.stored }) s.new_last
      ∙ rw (put_at, s.stored, s.new, s.stored, full, split_bucket, s.stored)

  no_calls :
      (t : RoutingTable) (nodes : List DhtNode)
      → 0 < length nodes
      → put_nodes (put_node xnor and_bytes 0) t nodes ≡ no_fuel
  unfolding put_nodes put_node
  no_calls t [] h = absurd (omega arith)
  no_calls t (n ∷ nodes) h = refl

  split_out :
      (t : RoutingTable) (nodes : List DhtNode) (n : DhtNode)
      → IsStuck t nodes n
      → split_bucket (put_node xnor and_bytes 0) t ≡ no_fuel
  unfolding split_bucket
  split_out t nodes n s =
      rw (split_bucket, s.stored) (no_calls (split_table t) nodes (omega (arith, s.full)))

  -- Where the last bucket is full with eight nodes that belong into it, the bit that a split sets is
  -- set in the mask already, and a new node belongs into the bucket too, `PutNode` never comes to an
  -- end, however many calls deep it goes. No split changes the number of the bit, so each second
  -- split of the last bucket meets this.
  pub put_node-stuck :
      (fuel : ℕ) (t : RoutingTable) (nodes : List DhtNode) (n : DhtNode)
      → IsStuck t nodes n
      → put_node xnor and_bytes fuel t n ≡ no_fuel
  unfolding put_node
  put_node-stuck zero t nodes n s = refl
  put_node-stuck (suc zero) t nodes n s = put_node-full 0 t nodes n s ∙ rw (split_out t nodes n s)
  put_node-stuck (suc (suc fuel)) t nodes n s =
      let run = split-Puts fuel t nodes n s in
      let s' : IsStuck run.table nodes n = record {
        some_bucket = run.holds.some_bucket;
        stored = run.holds.stored;
        full = s.full;
        distinct = s.distinct;
        last = rw (run.same_node, run.same_mask) s.last;
        bit_set = rw (run.same_mask, run.same_counter) s.bit_set;
        new_last = rw (run.same_node, run.same_mask) s.new_last;
        new = s.new;
      } in
      put_node-full (suc fuel) t nodes n s
      ∙ rw (run.puts) (put_node-stuck (suc fuel) run.table nodes n s')
