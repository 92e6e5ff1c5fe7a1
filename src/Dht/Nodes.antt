-- ===== src/Dht/Nodes.antt =====
-- The compact form of nodes in the answer to a find_node query (pkg/dht/queries.go).
use torrent_client.Common.{
  ℕ, ◌+◌, ◌*◌, ◌/◌, ◌^◌, ◌≤◌, ◌<◌, ◌≡◌, refl, sym, ap, ◌∙◌, true, some, List, [], ◌∷◌, ◌++◌, map,
  append-nil, arith, leb, ◌==◌, Bytes, codes, length, take, drop, length-append, All, take_front,
  drop_front, drop-drop,
}
use torrent_client.Bencode.Decimal.{format}
use torrent_client.Bencode.Decode.{decode}
use torrent_client.Bencode.Encode.{encode}
use torrent_client.Bencode.Normal.{norm, norm_dict, Encodable, EncodableFields, lookup-norm_dict}
use torrent_client.Bencode.RoundTrip.{decode-encode}
use torrent_client.Bencode.Value.{Value, Fields, lookup, eq_bytes}
use torrent_client.Common.Int.{max_int}
use torrent_client.Common.Outcome.{ok}
use torrent_client.Dht.{
  DhtNode, first_byte, response_of, get_response_dict, read_id, parse_find_node_response,
  parse_peer_info, parse_node_info, read_nodes,
}
use torrent_client.Extension.{as_dict}
use torrent_client.Wire.{uint16, put_uint16}
use torrent_client.Wire.Laws.{uint16-put}

-- A node as another client has it: its id, the four numbers of its address, and its port.
pub record NodeInfo : Type 0 where
  pub id : Bytes
  pub a : ℕ
  pub b : ℕ
  pub c : ℕ
  pub d : ℕ
  pub port : ℕ

pub record IsNode (i : NodeInfo) : Type 0 where
  pub id : length i.id ≡ 20
  pub port : i.port < 2 ^ 16

-- its compact form, 26 bytes
unfoldable pub put_node_info : NodeInfo → Bytes
put_node_info i = i.id ++ (i.a ∷ i.b ∷ i.c ∷ i.d ∷ put_uint16 i.port)

unfoldable pub put_nodes_info : List NodeInfo → Bytes
unfolding put_node_info
put_nodes_info [] = []
put_nodes_info (i ∷ is) = put_node_info i ++ put_nodes_info is

-- what is to be read
abbrev pub node_of : NodeInfo → DhtNode
node_of i = record {
  id = i.id;
  peer = record {
    host = format i.a ++ (b'.' ∷ (format i.b ++ (b'.' ∷ (format i.c ++ (b'.' ∷ format i.d)))));
    port = format i.port;
  };
}

length-put_node_info : (i : NodeInfo) → IsNode i → length (put_node_info i) ≡ 26
unfolding put_node_info put_uint16
length-put_node_info i v =
    omega (arith, length-append i.id (i.a ∷ i.b ∷ i.c ∷ i.d ∷ put_uint16 i.port), v.id)

parse_node_info-put : (i : NodeInfo) → IsNode i → parse_node_info (put_node_info i) ≡ ok (node_of i)
unfolding parse_node_info parse_peer_info put_node_info
parse_node_info-put i v =
    let rest = i.a ∷ i.b ∷ i.c ∷ i.d ∷ put_uint16 i.port in
    let front : take 20 (i.id ++ rest) ≡ i.id = rw (← v.id) (take_front i.id rest) in
    let back : drop 20 (i.id ++ rest) ≡ rest = rw (← v.id) (drop_front i.id rest) in
    let whole = uint16-put i.port [] v.port in
    let port : uint16 (put_uint16 i.port) ≡ ok i.port =
      rw (append-nil (put_uint16 i.port)) at whole in
    rw (front, back, port)

-- The loop at node `i`, in front of the nodes that are left.
read_nodes-put :
    (nodes : Bytes) (i : ℕ) (is : List NodeInfo)
    → All IsNode is
    → drop (i * 26) nodes ≡ put_nodes_info is
    → read_nodes nodes i (length is) ≡ ok (map node_of is)
unfolding read_nodes put_nodes_info
read_nodes-put nodes i [] v e = refl
read_nodes-put nodes i (n ∷ is) (v, vs) e =
    let p = put_node_info n in
    let rest = put_nodes_info is in
    let l = length-put_node_info n v in
    let inside : leb 26 (length (p ++ rest)) ≡ true = ground (arith, length-append p rest) in
    let front : take 26 (p ++ rest) ≡ p = rw (← l) (take_front p rest) in
    let back : drop 26 (p ++ rest) ≡ rest = rw (← l) (drop_front p rest) in
    let o : (i + 1) * 26 ≡ i * 26 + 26 = omega arith in
    let e' : drop ((i + 1) * 26) nodes ≡ rest =
      rw o (sym (drop-drop (i * 26) 26 nodes) ∙ ap (drop 26) e ∙ back) in
    rw (e, inside, front, parse_node_info-put n v, read_nodes-put nodes (i + 1) is vs e')

-- the map of an answer, and of what it answers with
abbrev pub answer_dict : (id nodes : Bytes) → Fields
answer_dict id nodes =
    Fields.field (codes "id") (Value.bytes id)
      (Fields.field (codes "nodes") (Value.bytes nodes) Fields.end)

abbrev pub response_dict : (args : Fields) → Fields
response_dict args = Fields.field (codes "t") (Value.str (codes "aa")) (
    Fields.field (codes "y") (Value.str (codes "r"))
      (Fields.field (codes "r") (Value.dict args) Fields.end))

answer_dict-Encodable :
    (id nodes : Bytes)
    → length id ≡ 20
    → length nodes ≤ max_int
    → EncodableFields (answer_dict id nodes)
unfolding eq_bytes
answer_dict-Encodable id nodes h l =
    EncodableFields.field (omega arith) (refl, tt) (Encodable.bytes (omega arith))
      (EncodableFields.field (omega arith) tt (Encodable.bytes l) EncodableFields.end)

response_dict-Encodable :
    (k : Bytes) (v : Value) (fs : Fields)
    → EncodableFields (Fields.field k v fs)
    → EncodableFields (response_dict (Fields.field k v fs))
unfolding eq_bytes
response_dict-Encodable k v fs e =
    EncodableFields.field (omega arith) (refl, (refl, tt)) (Encodable.str (omega arith))
      (EncodableFields.field (omega arith) (refl, tt) (Encodable.str (omega arith))
        (EncodableFields.field (omega arith) tt (Encodable.dict e) EncodableFields.end))

length-put_nodes_info :
    (is : List NodeInfo) → All IsNode is → length (put_nodes_info is) ≡ length is * 26
unfolding put_nodes_info
length-put_nodes_info [] v = omega arith
length-put_nodes_info (i ∷ is) (v, vs) = omega (
  arith,
  length-append (put_node_info i) (put_nodes_info is),
  length-put_node_info i v,
  length-put_nodes_info is vs,
)

-- What the parser does where it finds the entries.
parse_entries :
    (top res : Fields) (id nodes : Bytes) (ns : List DhtNode)
    → lookup (codes "y") top ≡ some (Value.bytes (codes "r"))
    → lookup (codes "r") top ≡ some (Value.dict res)
    → lookup (codes "id") res ≡ some (Value.bytes id)
    → lookup (codes "nodes") res ≡ some (Value.bytes nodes)
    → (length id == 20) ≡ true
    → read_nodes nodes 0 (length nodes / 26) ≡ ok ns
    → parse_find_node_response top ≡ ok (record { id = id; nodes = ns })
unfolding parse_find_node_response get_response_dict as_dict first_byte response_of read_id
parse_entries top res id nodes ns y r i n l reads = rw (y, r, i, n, l, reads)

-- An answer that a node writes with its id and the compact forms of nodes is read back:
-- `ParseFindNodeResponse` finds the id and each node, with its address and port as text. The ids
-- have 20 bytes and the ports 16 bits.
pub parse_find_node_response-response_dict :
    (spare id : Bytes) (is : List NodeInfo)
    → length id ≡ 20
    → All IsNode is
    → length (put_nodes_info is) ≤ max_int
    → (b : Bytes) × (dict : Fields) × (encode
          (Value.dict (response_dict (answer_dict id (put_nodes_info is))))
        ≡ some b)
      × (decode spare b ≡ ok (Value.dict dict))
      × (parse_find_node_response dict ≡ ok (record { id = id; nodes = map node_of is }))
unfolding norm norm_dict lookup eq_bytes
parse_find_node_response-response_dict spare id is h v l =
    let nodes = put_nodes_info is in
    let args = answer_dict id nodes in
    let ea = answer_dict-Encodable id nodes h l in
    let e = response_dict-Encodable _ _ _ ea in
    let (b, written, reads) = decode-encode spare (Encodable.dict e) in
    let count : length nodes / 26 ≡ length is = omega (arith, length-put_nodes_info is v) in
    let all = read_nodes-put nodes 0 is v refl in
    (
      b,
      norm_dict (response_dict args),
      written,
      reads,
      parse_entries (norm_dict (response_dict args)) (norm_dict args) id nodes (map node_of is)
          (lookup-norm_dict (codes "y") (response_dict args) e)
          (lookup-norm_dict (codes "r") (response_dict args) e)
          (lookup-norm_dict (codes "id") args ea) (lookup-norm_dict (codes "nodes") args ea)
          (ground (arith, h)) (rw count all),
    )
