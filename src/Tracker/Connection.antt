-- ===== src/Tracker/Connection.antt =====
-- pkg/torrent/tracker.go: the exchange with a tracker over UDP, with the addresses of the peers that
-- it names, and pkg/torrent/common.go for ids and addresses as text. What `net.ResolveUDPAddr` and
-- `net.DialUDP` come back with are arguments, and so are the random numbers.
pub mod Exchange
pub mod Peers
use torrent_client.Common.{
  ℕ, ◌/◌, ◌%◌, ◌^◌, min, Bool, true, false, Option, none, some, List, [], ◌∷◌, ◌++◌, if◌then◌else◌,
  Bytes, codes, length, take,
}
use torrent_client.Bencode.Decimal.{format}
use torrent_client.Bencode.Value.{eq_bytes}
use torrent_client.Bitfield.{copy_into}
use torrent_client.Common.Outcome.{Outcome, ok, err, deadline, open_failed, write_failed, ◌>>=◌}
use torrent_client.Peer.{PeerInfo}
use torrent_client.Tracker.{
  AnnounceRequest, AnnounceResponse, TorrentPeer, gen_connection_packet, parse_connection,
  get_announce_packet, parse_announce_response,
}
use torrent_client.Wire.{put_uint64, make}

-- A socket: the packets that went out, which writes fail, and the packets that come in, one for each
-- read; with none left, a read waits for its deadline.
pub record UdpConn : Type 0 where
  pub sent : List Bytes
  pub faults : ℕ → Bool
  pub arriving : List Bytes

pub record TrackerConn : Type 0 where
  pub conn : UdpConn
  pub transaction_id : ℕ
  pub connection_id : ℕ

-- `conn.Write(p)`, and whether it fails
unfoldable pub write : UdpConn → Bytes → Bool × UdpConn
write c p =
    if c.faults (length c.sent) then (true, c) else (false, record c { sent = c.sent ++ (p ∷ []) })

-- `bufio.NewReader(conn).Read(buf)` with `len(buf) = n`: the buffer, and how many bytes came. What
-- is left of a packet is lost with the reader.
unfoldable pub read : UdpConn → (n : ℕ) → Outcome ((Bytes × ℕ) × UdpConn)
unfolding copy_into
read c n = elim c.arriving [
  | [] ↦ err deadline
  | p ∷ ps ↦ ok ((copy_into (make n) (take n p), min n (length p)), record c { arriving = ps })
]

-- what `NewUDPTrackerConn` does with an open socket: how many bytes came is only printed.
unfoldable pub connect : UdpConn → (transaction_id : ℕ) → Outcome TrackerConn
unfolding write read gen_connection_packet parse_connection
connect c transaction_id =
    let w = write c (gen_connection_packet transaction_id) in
    if w.0
    then err write_failed
    else read (w.1) 32 >>= λ r. parse_connection r.0.0 >>= λ ids.
        ok (record { conn = r.1; transaction_id = ids.0; connection_id = ids.1 })

-- `NewUDPTrackerConn`: the address that the name stands for, as text, and the socket
unfoldable pub new_udp_tracker_conn :
    (resolved : Option Bytes) → (dial : Option UdpConn) → (transaction_id : ℕ) → Outcome TrackerConn
unfolding eq_bytes connect
new_udp_tracker_conn none dial transaction_id = err open_failed
new_udp_tracker_conn (some ip) none transaction_id = err open_failed
new_udp_tracker_conn (some ip) (some c) transaction_id =
    if eq_bytes ip (codes "127.0.0.1") then err open_failed else connect c transaction_id

-- `GenPeerId`: 8 random bytes in front of zeros
unfoldable pub gen_peer_id : (random : ℕ) → Bytes
unfolding put_uint64
gen_peer_id random = put_uint64 random ++ make 12

-- the request that `Announce` sends
unfoldable pub filled_in : TrackerConn → (random : ℕ) → AnnounceRequest → AnnounceRequest
unfolding gen_peer_id
filled_in c random r = record r {
  connection_id = c.connection_id;
  transaction_id = c.transaction_id;
  peer_id = gen_peer_id random;
}

-- `Announce`: the error of the write is overwritten by that of the read.
unfoldable pub announce :
    TrackerConn → (random : ℕ) → AnnounceRequest → Outcome (AnnounceResponse × TrackerConn)
unfolding filled_in write read get_announce_packet parse_announce_response
announce c random r =
    let w = write c.conn (get_announce_packet (filled_in c random r)) in
    read (w.1) 1024 >>= λ a.
    parse_announce_response a.0.0 a.0.1 >>= λ res. ok (res, record c { conn = a.1 })

-- `Int32ToIpString`
unfoldable pub int32_to_ip_string : ℕ → Bytes
unfolding format
int32_to_ip_string i =
    format (i / 2 ^ 24 % 256)
    ++ (b'.'
        ∷ (format (i / 2 ^ 16 % 256)
            ++ (b'.' ∷ (format (i / 2 ^ 8 % 256) ++ (b'.' ∷ format (i % 256))))))

-- `ToPeerInfo`
unfoldable pub to_peer_info : TorrentPeer → PeerInfo
unfolding int32_to_ip_string format
to_peer_info p = record { ipaddr = int32_to_ip_string p.ip_addr; port = format p.port }
