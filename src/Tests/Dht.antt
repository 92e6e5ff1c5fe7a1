-- ===== src/Tests/Dht.antt =====
-- A routing table whose last bucket is full. `XNOR` and `And` are the bitwise operations on bytes.
use Prim.Native.Nat.{bit_and, bit_xor}
use torrent_client.Common.{
  ℕ, ◌-◌, ◌≤◌, ◌≡◌, refl, ◌&&◌, ◌||◌, some, List, [], ◌∷◌, map, arith, ltb, Bytes, codes, length,
  replicate,
}
use torrent_client.Bencode.Value.{eq_bytes, Value, Fields}
use torrent_client.Bitfield.{set_bit_field_piece}
use torrent_client.Common.Outcome.{ok, no_fuel, panic, ◌>>=◌}
use torrent_client.Bencode.Decode.{decode}
use torrent_client.Bencode.Encode.{encode}
use torrent_client.Dht.{DhtNode, parse_find_node_response}
use torrent_client.Dht.Client.{
  Network, dialled, new_dht_client, get_peers, find_node, refresh_bucket,
}
use torrent_client.Dht.Client.Unusable.{new_dht_client-panic}
use torrent_client.Dht.Nodes.{
  NodeInfo, put_nodes_info, answer_dict, response_dict, node_of,
  parse_find_node_response-response_dict,
}
use torrent_client.Wire.{put_uint16}
use torrent_client.Dht.Table.{
  RoutingTable, put_node, has_node, find_bucket, add_node, find_closest_node,
}
use torrent_client.Dht.Table.Laws.{add_node-bounded, find_closest_node-first}
use torrent_client.Dht.Table.Split.{IsStuck, put_node-stuck}

abbrev zip_bytes : (ℕ → ℕ → ℕ) → Bytes → Bytes → Bytes
zip_bytes f [] ys = []
zip_bytes f (x ∷ xs) [] = []
zip_bytes f (x ∷ xs) (y ∷ ys) = f x y ∷ zip_bytes f xs ys

abbrev xnor : Bytes → Bytes → Bytes
xnor = zip_bytes (λ x y. 255 - bit_xor x y)

abbrev and_bytes : Bytes → Bytes → Bytes
and_bytes = zip_bytes bit_and

abbrev sample_node : ℕ → DhtNode
sample_node k = record {
  id = k ∷ replicate 19 0;
  peer = record { host = codes "10.0.0.1"; port = codes "6881" };
}

abbrev eight_nodes : List DhtNode
eight_nodes = map sample_node (0 ∷ 1 ∷ 2 ∷ 3 ∷ 4 ∷ 5 ∷ 6 ∷ 7 ∷ [])

abbrev full_table : RoutingTable
full_table = record {
  node = replicate 20 0;
  buckets =
      (replicate 20 0, record { nodes = [] })
      ∷ (128 ∷ replicate 19 0, record { nodes = eight_nodes })
      ∷ [];
  mask = 128 ∷ replicate 19 0;
  mask_counter = 0;
}

full_table-IsStuck : IsStuck xnor and_bytes full_table eight_nodes (sample_node 8)
unfolding eq_bytes has_node find_bucket set_bit_field_piece
full_table-IsStuck = record {
  some_bucket = refl;
  stored = refl;
  full = refl;
  distinct = (refl, (refl, (refl, (refl, (refl, (refl, (refl, (refl, tt))))))));
  last = (refl, (refl, (refl, (refl, (refl, (refl, (refl, (refl, tt))))))));
  bit_set = refl;
  new_last = refl;
  new = refl;
}

put_node-stuck_example : put_node xnor and_bytes 1000 full_table (sample_node 8) ≡ no_fuel
put_node-stuck_example =
    put_node-stuck xnor and_bytes 1000 full_table eight_nodes (sample_node 8) full_table-IsStuck

add_node-bounded_example :
    (length (add_node (record { nodes = eight_nodes }) (sample_node 9)).nodes ≤ 8)
    × ((id : Bytes)
        → has_node id (add_node (record { nodes = eight_nodes }) (sample_node 9)).nodes ≡ (
            (ltb (length eight_nodes) 8 && eq_bytes (sample_node 9).id id)
            || has_node id eight_nodes))
add_node-bounded_example =
    add_node-bounded (record { nodes = eight_nodes }) (sample_node 9) (omega arith)

find_closest_node-first_example :
    find_closest_node (record { nodes = eight_nodes }) (replicate 20 7) ≡ ok (sample_node 0)
find_closest_node-first_example =
    find_closest_node-first (record { nodes = eight_nodes }) (replicate 20 7)

abbrev sample_info : NodeInfo
sample_info = record { id = replicate 20 7; a = 10; b = 0; c = 0; d = 1; port = 6881 }

parse_find_node_response-response_dict_example :
    (b : Bytes) × (dict : Fields) × (encode (
        Value.dict
          (response_dict (answer_dict (replicate 20 1) (put_nodes_info (sample_info ∷ [])))))
      ≡ some b)
    × (decode [] b ≡ ok (Value.dict dict))
    × (parse_find_node_response dict
        ≡ ok (record { id = replicate 20 1; nodes = node_of sample_info ∷ [] }))
unfolding put_nodes_info put_uint16
parse_find_node_response-response_dict_example =
    parse_find_node_response-response_dict [] (replicate 20 1) (sample_info ∷ []) refl
      (record { id = refl; port = omega arith }, tt) (omega arith)

-- an answer to a ping
abbrev answering : Network
answering addr = dialled (λ msg. some (codes "d1:rd2:id20:aaaaaaaaaaaaaaaaaaaae1:t2:aa1:y1:re"))

new_dht_client-panic_example :
    ((new_dht_client answering (replicate 20 1) >>= λ n. get_peers answering n (replicate 20 2))
      ≡ panic)
    × ((new_dht_client answering (replicate 20 1) >>= λ n. find_node answering n (replicate 20 2))
        ≡ panic)
    × ((new_dht_client answering (replicate 20 1) >>= λ n.
          refresh_bucket answering (replicate 20 2) n)
        ≡ panic)
new_dht_client-panic_example = new_dht_client-panic answering (replicate 20 1) (replicate 20 2)
