-- ===== src/Dht/Client/Unusable.antt =====
-- A DHT client from its constructor to a search (pkg/dht/dht.go).
use torrent_client.Common.{
  ℕ, ◌+◌, ◌-◌, ◌≤◌, ◌<◌, ◌≡◌, refl, Option, none, some, Bytes, codes, length, take, replicate,
}
use torrent_client.Bencode.Decode.{decode, decode_with_count}
use torrent_client.Bencode.Decode.Total.{decode_with_count-total}
use torrent_client.Bencode.Value.{Value}
use torrent_client.Common.Outcome.{Outcome, ok, err, panic, no_fuel, Ensures, ◌>>=◌}
use torrent_client.Dht.{get_address, DhtPeer, serialize_ping}
use torrent_client.Dht.Client.{
  Dialled, unresolved, refused, dialled, exchange_query, DhtNodeClient, Network, or_error,
  send_query, ping, add_to_bucket, checked_address, check_address, new_dht_client, closest_node,
  get_peers, find_node, refresh_bucket,
}
use torrent_client.Dht.Responses.{Ends, and_then, parse_ping_response-Ends}

drop_count-Ends :
    (P : Value × ℕ → Type 0) (m : Outcome (Value × ℕ)) → Ensures P m → Ends (m >>= λ r. ok r.0)
drop_count-Ends P (ok r) h = tt
drop_count-Ends P (err e) h = tt
drop_count-Ends P panic h = tt
drop_count-Ends P no_fuel h = h

decode-Ends : (spare s : Bytes) → Ends (decode spare s)
unfolding decode
decode-Ends spare s =
    drop_count-Ends (λ r. (0 < r.1) × (r.1 ≤ length s + length spare)) (decode_with_count spare s)
      (decode_with_count-total spare s)

answered-Ends : (o : Option Bytes) → Ends (or_error o >>= λ b. ok (take 512 b))
answered-Ends none = tt
answered-Ends (some b) = tt

exchange_query-Ends : (o : Dialled) (q : Option Bytes) → Ends (exchange_query o q)
unfolding exchange_query
exchange_query-Ends unresolved q = tt
exchange_query-Ends refused q = tt
exchange_query-Ends (dialled exchange) none = tt
exchange_query-Ends (dialled exchange) (some msg) = answered-Ends (exchange msg)

module _ (net : Network) where
  send_query-Ends : (q : Option Bytes) (addr : Bytes) → Ends (send_query net q addr)
  unfolding send_query
  send_query-Ends q addr = exchange_query-Ends (net addr) q

  ping-Ends : (n : DhtNodeClient) (address : Bytes) → Ends (ping net n address)
  unfolding ping
  ping-Ends n address = and_then _ _ (send_query-Ends (serialize_ping n.node_id) address) (λ buf.
      and_then _ _ (decode-Ends (replicate (512 - length buf) 0) buf)
        (λ v. parse_ping_response-Ends v))

  -- what `f` does with a client that has no bucket
  module _ {A : Type 0} (f : DhtNodeClient → Outcome A)
      (h : (n : DhtNodeClient) → n.routing_bucket ≡ none → f n ≡ panic) where
    checked-panic :
        (id : Bytes) (p : DhtPeer) (r : Outcome Bytes)
        → Ends r
        → (checked_address net (record { node_id = id; routing_bucket = none }) p r >>= f) ≡ panic
    unfolding checked_address add_to_bucket
    checked-panic id p (ok i) e = refl
    checked-panic id p (err x) e = h _ refl
    checked-panic id p panic e = refl
    checked-panic id p no_fuel e = absurd e

    new_client-panic : (id : Bytes) → (new_dht_client net id >>= f) ≡ panic
    unfolding new_dht_client check_address
    new_client-panic id =
        let n : DhtNodeClient = record { node_id = id; routing_bucket = none } in
        let p : DhtPeer = record { host = codes "router.bittorrent.com"; port = codes "6881" } in
        checked-panic id p (ping net n (get_address p)) (ping-Ends n (get_address p))

  -- Whatever the network does, no client that `NewDHTClient` makes can search: the constructor
  -- panics, or each of `GetPeers`, `FindNode` and `RefreshBucket` does when it is called next.
  -- (`Ping` and `SendQuery` do without the bucket.)
  pub new_dht_client-panic :
      (id hash : Bytes)
      → ((new_dht_client net id >>= λ n. get_peers net n hash) ≡ panic)
        × ((new_dht_client net id >>= λ n. find_node net n hash) ≡ panic)
        × ((new_dht_client net id >>= λ n. refresh_bucket net hash n) ≡ panic)
  unfolding get_peers find_node refresh_bucket closest_node
  new_dht_client-panic id hash = (
    new_client-panic _ (λ n h. rw h) id,
    new_client-panic _ (λ n h. rw h) id,
    new_client-panic _ (λ n h. rw h) id,
  )
