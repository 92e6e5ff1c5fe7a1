-- ===== src/Tracker.antt =====
-- pkg/torrent/tracker.go: the packets that go to a tracker over UDP and what its answers say. The
-- sockets, the random numbers and the resolution of names are outside.
pub mod Announce
pub mod Connection
use torrent_client.Common.{
  ℕ, zero, suc, ◌+◌, ◌-◌, ◌*◌, ◌/◌, List, [], ◌∷◌, ◌++◌, ltb, if◌then◌else◌, Bytes,
}
use torrent_client.Common.Outcome.{Outcome, ok, ◌>>=◌}
use torrent_client.Peer.Handler.{number_at, slice_from}
use torrent_client.Wire.{put_uint16, put_uint32, put_uint64, uint16, uint32, uint64}

-- `genConnectionPacket`: the protocol's number, action 0, the transaction
unfoldable pub gen_connection_packet : (transaction_id : ℕ) → Bytes
unfolding put_uint32
gen_connection_packet transaction_id =
    0 ∷ 0 ∷ 4 ∷ 23 ∷ 39 ∷ 16 ∷ 25 ∷ 128 ∷ (put_uint32 0 ++ put_uint32 transaction_id)

-- Transaction and connection as `NewUDPTrackerConn` takes them out of the 32 bytes of its buffer.
unfoldable pub parse_connection : Bytes → Outcome (ℕ × ℕ)
unfolding uint32 uint64
parse_connection buf = do
  action ← uint32 buf
  transaction_id ← number_at buf 4
  connection_id ← (slice_from buf 8 >>= uint64)
  ok (transaction_id, connection_id)

pub record AnnounceRequest : Type 0 where
  pub connection_id : ℕ
  pub transaction_id : ℕ
  pub info_hash : Bytes
  pub peer_id : Bytes
  pub downloaded : ℕ
  pub left : ℕ
  pub uploaded : ℕ
  pub event : ℕ
  pub ipaddr : ℕ
  pub key : ℕ
  pub num_want : ℕ
  pub port : ℕ

pub record TorrentPeer : Type 0 where
  pub ip_addr : ℕ
  pub port : ℕ

pub record AnnounceResponse : Type 0 where
  pub action : ℕ
  pub transaction_id : ℕ
  pub interval : ℕ
  pub leechers : ℕ
  pub seeders : ℕ
  pub peers : List TorrentPeer

-- `getAnnouncePacket`: the event is not sent, but a zero. `num_want` is the `int32` as a word.
unfoldable pub get_announce_packet : AnnounceRequest → Bytes
unfolding put_uint16 put_uint32 put_uint64
get_announce_packet r =
    put_uint64 r.connection_id
    ++ (put_uint32 1
        ++ (put_uint32 r.transaction_id
            ++ (r.info_hash
                ++ (r.peer_id
                    ++ (put_uint64 r.downloaded
                        ++ (put_uint64 r.left
                            ++ (put_uint64 r.uploaded
                                ++ (put_uint32 0
                                    ++ (put_uint32 r.ipaddr
                                        ++ (put_uint32 r.key
                                            ++ (put_uint32 r.num_want
                                                ++ put_uint16 r.port)))))))))))

-- peer `i` of the answer
unfoldable pub peer_at : Bytes → (i : ℕ) → Outcome TorrentPeer
unfolding uint16 uint32
peer_at b i = do
  ip_addr ← number_at b (20 + 6 * i)
  port ← (slice_from b (24 + 6 * i) >>= uint16)
  ok (record { ip_addr = ip_addr; port = port })

-- the loop over `n` peers from peer `i` on
unfoldable pub read_peers : Bytes → (i n : ℕ) → Outcome (List TorrentPeer)
unfolding peer_at
read_peers b i zero = ok []
read_peers b i (suc n) = do p ← peer_at b i; rest ← read_peers b (i + 1) n; ok (p ∷ rest)

unfoldable pub parse_full : Bytes → (peers : ℕ) → Outcome AnnounceResponse
unfolding uint32 read_peers
parse_full b peers = do
  action ← uint32 b
  transaction_id ← number_at b 4
  interval ← number_at b 8
  leechers ← number_at b 12
  seeders ← number_at b 16
  ps ← read_peers b 0 peers
  ok (record {
    action = action;
    transaction_id = transaction_id;
    interval = interval;
    leechers = leechers;
    seeders = seeders;
    peers = ps;
  })

-- `parseAnnounceResponse(b, l)`: an answer of less than 20 bytes is an action alone.
unfoldable pub parse_announce_response : Bytes → (l : ℕ) → Outcome AnnounceResponse
unfolding uint32 parse_full
parse_announce_response b l =
    if ltb l 20
    then (uint32 b >>= λ action. ok (record {
      action = action;
      transaction_id = 0;
      interval = 0;
      leechers = 0;
      seeders = 0;
      peers = [];
    }))
    else parse_full b ((l - 20) / 6)
