-- ===== src/Tracker/Connection/Exchange.antt =====
-- A whole exchange with a tracker (pkg/torrent/tracker.go).
use torrent_client.Common.{
  ℕ, zero, suc, ◌+◌, ◌-◌, ◌*◌, ◌^◌, ◌≤◌, ◌<◌, min, ◌≡◌, refl, sym, ap, ◌∙◌, Bool, false, List, [],
  ◌∷◌, ◌++◌, append_assoc, arith, Bytes, length, take, if_rule,
}
use torrent_client.Bitfield.{copy_into}
use torrent_client.Common.Outcome.{ok}
use torrent_client.Tracker.{
  TorrentPeer, AnnounceRequest, AnnounceResponse, gen_connection_packet, parse_connection,
  get_announce_packet, parse_announce_response,
}
use torrent_client.Tracker.Announce.{
  put_response, put_peers, ResponseInRange, parse_announce_response-put_response, number_at_front,
  slice_from_front,
}
use torrent_client.Tracker.Connection.{
  UdpConn, TrackerConn, write, read, connect, filled_in, announce,
}
use torrent_client.Wire.{put_uint16, put_uint32, put_uint64, make}
use torrent_client.Wire.Laws.{uint64-put}

-- the answer of a tracker to a connection packet
unfoldable pub put_connection : (transaction_id connection_id : ℕ) → Bytes
put_connection t c = put_uint32 0 ++ (put_uint32 t ++ put_uint64 c)

-- A packet that fits the buffer stands in front of it.
padded :
    (n : ℕ) (p : Bytes) → length p ≤ n → copy_into (make n) (take n p) ≡ p ++ make (n - length p)
unfolding copy_into
padded zero [] h = refl
padded (suc n) [] h = let all : suc n - 0 ≡ suc n = omega arith in rw all
padded zero (x ∷ p) h = absurd (omega arith)
padded (suc n) (x ∷ p) h =
    let less : suc n - suc (length p) ≡ n - length p = omega arith in
    rw less (ap (λ t. x ∷ t) (padded n p (omega arith)))

length-put_peers : (ps : List TorrentPeer) → length (put_peers ps) ≡ 6 * length ps
unfolding put_peers put_uint32 put_uint16
length-put_peers [] = refl
length-put_peers (p ∷ ps) = omega (arith, length-put_peers ps)

length-put_response : (r : AnnounceResponse) → length (put_response r) ≡ 20 + 6 * length r.peers
unfolding put_response put_uint32
length-put_response r = omega (arith, length-put_peers r.peers)

write-out :
    (c : UdpConn) (p : Bytes)
    → c.faults (length c.sent) ≡ false
    → write c p ≡ (false, record c { sent = c.sent ++ (p ∷ []) })
unfolding write
write-out c p w = rw w

read-first :
    (c : UdpConn) (n : ℕ) (p : Bytes) (ps : List Bytes)
    → c.arriving ≡ p ∷ ps
    → length p ≤ n
    → read c n ≡ ok ((p ++ make (n - length p), length p), record c { arriving = ps })
unfolding read
read-first c n p ps a h =
    let size : min n (length p) ≡ length p = omega arith in rw (a, padded n p h, size)

parse_connection-put :
    (t id : ℕ) (rest : Bytes)
    → t < 2 ^ 32
    → id < 2 ^ 64
    → parse_connection (put_connection t id ++ rest) ≡ ok (t, id)
unfolding parse_connection put_connection put_uint32
parse_connection-put t id rest ht hid =
    let a = put_uint32 0 in
    let b = put_uint32 t in
    rw (
      number_at_front a (put_uint64 id ++ rest) 4 t refl ht,
      slice_from_front (a ++ b) (put_uint64 id ++ rest) 8 refl,
      uint64-put id rest hid,
    )

connect-put :
    (c : UdpConn) (mine t id : ℕ) (rest : Bytes) (others : List Bytes)
    → c.faults (length c.sent) ≡ false
    → c.arriving ≡ (put_connection t id ++ rest) ∷ others
    → t < 2 ^ 32
    → id < 2 ^ 64
    → length rest ≤ 16
    → connect c mine
      ≡ ok (record {
        conn = record c { sent = c.sent ++ (gen_connection_packet mine ∷ []); arriving = others };
        transaction_id = t;
        connection_id = id;
      })
unfolding connect
connect-put c mine t id rest others w a ht hid fits =
    let packet = gen_connection_packet mine in
    let p = put_connection t id ++ rest in
    let out = record c { sent = c.sent ++ (packet ∷ []) } in
    let size : length p ≤ 32 = unfold put_connection put_uint32 put_uint64 in omega (arith, fits) in
    rw (
      write-out c packet w,
      read-first out 32 p others a size,
      append_assoc (put_connection t id) rest (make (32 - length p)),
      parse_connection-put t id (rest ++ make (32 - length p)) ht hid,
    )

-- The socket behind the write of the request, which may fail.
abbrev pub after_request : TrackerConn → (random : ℕ) → AnnounceRequest → UdpConn
after_request tc random r = (write tc.conn (get_announce_packet (filled_in tc random r))).1

write-arriving : (c : UdpConn) (p : Bytes) → (write c p).1.arriving ≡ c.arriving
unfolding write
write-arriving c p =
    if_rule (λ (x : Bool × UdpConn). x.1.arriving ≡ c.arriving) (c.faults (length c.sent)) _ _
      (λ _. refl) (λ _. refl)

announce-put :
    (tc : TrackerConn) (random : ℕ) (r : AnnounceRequest) (res : AnnounceResponse)
    (others : List Bytes)
    → tc.conn.arriving ≡ put_response res ∷ others
    → ResponseInRange res
    → length res.peers ≤ 167
    → announce tc random r
      ≡ ok (res, record tc { conn = record (after_request tc random r) { arriving = others } })
unfolding announce
announce-put tc random r res others a range few =
    let c = after_request tc random r in
    let p = put_response res in
    let n = length-put_response res in
    let more : 20 + 6 * length res.peers + 0 ≡ length p = omega arith in
    let tail = make (1024 - length p) in
    let whole : parse_announce_response (p ++ tail) (length p) ≡ ok res =
      ap (parse_announce_response (p ++ tail)) (sym more)
      ∙ parse_announce_response-put_response res tail 0 range (omega arith) in
    rw (read-first c 1024 p others (write-arriving tc.conn _ ∙ a) (omega arith), whole)

-- A tracker that answers a connection packet with its ids, in a packet of 32 bytes at most, and the
-- request with a response of 167 peers at most, numbers in the range of their width: the connection
-- takes up the ids, whatever transaction the answer names, and `Announce` returns the response as
-- the tracker wrote it, also where the write of the request failed.
pub announce_exchange :
    (c : UdpConn) (mine t id random : ℕ) (rest : Bytes) (others : List Bytes) (r : AnnounceRequest)
    (res : AnnounceResponse)
    → c.faults (length c.sent) ≡ false
    → c.arriving ≡ (put_connection t id ++ rest) ∷ put_response res ∷ others
    → t < 2 ^ 32
    → id < 2 ^ 64
    → length rest ≤ 16
    → ResponseInRange res
    → length res.peers ≤ 167
    → (tc : TrackerConn) × (connect c mine ≡ ok tc)
      × (tc.transaction_id ≡ t)
      × (tc.connection_id ≡ id)
      × (announce tc random r
          ≡ ok (res, record tc { conn = record (after_request tc random r) { arriving = others } }))
announce_exchange c mine t id random rest others r res w a ht hid fits range few = (
  record {
    conn = record c {
      sent = c.sent ++ (gen_connection_packet mine ∷ []);
      arriving = put_response res ∷ others;
    };
    transaction_id = t;
    connection_id = id;
  },
  connect-put c mine t id rest (put_response res ∷ others) w a ht hid fits,
  refl,
  refl,
  announce-put _ random r res others refl range few,
)
