-- ===== src/Tracker/Announce.antt =====
-- The answer of a tracker is read as it was written.
use torrent_client.Common.{
  ℕ, ◌+◌, ◌-◌, ◌*◌, ◌/◌, ◌^◌, ◌<◌, ◌≡◌, refl, sym, ap, ◌∙◌, true, false, List, [], ◌∷◌, ◌++◌,
  append_assoc, arith, ltb, leb, Bytes, length, drop, length-append, All, drop_front,
}
use torrent_client.Common.Outcome.{ok, ◌>>=◌}
use torrent_client.Peer.Handler.{number_at, slice_from}
use torrent_client.Tracker.{
  parse_announce_response, TorrentPeer, AnnounceResponse, peer_at, read_peers, parse_full,
}
use torrent_client.Wire.{put_uint16, put_uint32, uint16, uint32}
use torrent_client.Wire.Laws.{uint16-put, uint32-put, length-put_uint32, length-put_uint16}

-- the six bytes of each peer
unfoldable pub put_peers : List TorrentPeer → Bytes
put_peers [] = []
put_peers (p ∷ ps) = put_uint32 p.ip_addr ++ (put_uint16 p.port ++ put_peers ps)

pub record InRange (p : TorrentPeer) : Type 0 where
  pub ip_addr : p.ip_addr < 2 ^ 32
  pub port : p.port < 2 ^ 16

pub slice_from_front : (pre s : Bytes) (n : ℕ) → length pre ≡ n → slice_from (pre ++ s) n ≡ ok s
slice_from_front pre s n h =
    let e = length-append pre s in
    let inside : leb n (length (pre ++ s)) ≡ true = ground arith in
    rw inside (ap ok (ap (λ k. drop k (pre ++ s)) (sym h) ∙ drop_front pre s))

pub number_at_front :
    (pre s : Bytes) (n x : ℕ)
    → length pre ≡ n
    → x < 2 ^ 32
    → number_at (pre ++ (put_uint32 x ++ s)) n ≡ ok x
number_at_front pre s n x h small =
    ap (λ m. m >>= uint32) (slice_from_front pre (put_uint32 x ++ s) n h) ∙ uint32-put x s small

peer_at_read :
    (b : Bytes) (i : ℕ) (p : TorrentPeer)
    → number_at b (20 + 6 * i) ≡ ok p.ip_addr
    → (slice_from b (24 + 6 * i) >>= uint16) ≡ ok p.port
    → peer_at b i ≡ ok p
unfolding peer_at
peer_at_read b i p hi hp = rw (hi, hp)

peer_at_front :
    (pre s : Bytes) (i : ℕ) (p : TorrentPeer)
    → length pre ≡ 20 + 6 * i
    → InRange p
    → peer_at (pre ++ (put_uint32 p.ip_addr ++ (put_uint16 p.port ++ s))) i ≡ ok p
peer_at_front pre s i p h r =
    let ip = put_uint32 p.ip_addr in
    let rest = put_uint16 p.port ++ s in
    let b = pre ++ (ip ++ rest) in
    let whole : b ≡ (pre ++ ip) ++ rest = sym (append_assoc pre ip rest) in
    let len : length (pre ++ ip) ≡ 24 + 6 * i =
      omega (arith, length-append pre ip, length-put_uint32 p.ip_addr) in
    let port : (slice_from b (24 + 6 * i) >>= uint16) ≡ ok p.port =
      ap (λ t. slice_from t (24 + 6 * i) >>= uint16) whole
      ∙ ap (λ m. m >>= uint16) (slice_from_front (pre ++ ip) rest (24 + 6 * i) len)
      ∙ uint16-put p.port s r.port in
    peer_at_read b i p (number_at_front pre rest (20 + 6 * i) p.ip_addr h r.ip_addr) port

read_peers_front :
    (pre tail : Bytes) (i : ℕ) (ps : List TorrentPeer)
    → length pre ≡ 20 + 6 * i
    → All InRange ps
    → read_peers (pre ++ (put_peers ps ++ tail)) i (length ps) ≡ ok ps
unfolding read_peers put_peers put_uint32 put_uint16
read_peers_front pre tail i [] h r = refl
read_peers_front pre tail i (p ∷ ps) h r =
    let ip = put_uint32 p.ip_addr in
    let port = put_uint16 p.port in
    let more = put_peers ps ++ tail in
    let whole : pre ++ ((ip ++ (port ++ put_peers ps)) ++ tail) ≡ pre ++ (ip ++ (port ++ more)) =
      ap (λ t. pre ++ t)
        (append_assoc ip (port ++ put_peers ps) tail
          ∙ ap (λ t. ip ++ t) (append_assoc port (put_peers ps) tail)) in
    let shifted : pre ++ (ip ++ (port ++ more)) ≡ (pre ++ (ip ++ port)) ++ more =
      ap (λ t. pre ++ t) (sym (append_assoc ip port more))
      ∙ sym (append_assoc pre (ip ++ port) more) in
    let len : length (pre ++ (ip ++ port)) ≡ 20 + 6 * (i + 1) = omega (
      arith,
      length-append pre (ip ++ port),
      length-append ip port,
      length-put_uint32 p.ip_addr,
      length-put_uint16 p.port,
    ) in
    let rest = read_peers_front (pre ++ (ip ++ port)) tail (i + 1) ps len r.1 in
    rw whole (
      ap
        (λ m. m >>= λ q.
          read_peers (pre ++ (ip ++ (port ++ more))) (i + 1) (length ps) >>= λ qs. ok (q ∷ qs))
        (peer_at_front pre more i p h r.0)
      ∙ ap (λ b. read_peers b (i + 1) (length ps) >>= λ qs. ok (p ∷ qs)) shifted
      ∙ ap (λ m. m >>= λ qs. ok (p ∷ qs)) rest)

-- An answer as a tracker writes it: five numbers, and six bytes for each peer.
unfoldable pub put_response : AnnounceResponse → Bytes
put_response r =
    put_uint32 r.action
    ++ (put_uint32 r.transaction_id
        ++ (put_uint32 r.interval
            ++ (put_uint32 r.leechers ++ (put_uint32 r.seeders ++ put_peers r.peers))))

pub record ResponseInRange (r : AnnounceResponse) : Type 0 where
  pub action : r.action < 2 ^ 32
  pub transaction_id : r.transaction_id < 2 ^ 32
  pub interval : r.interval < 2 ^ 32
  pub leechers : r.leechers < 2 ^ 32
  pub seeders : r.seeders < 2 ^ 32
  pub peers : All InRange r.peers

parse_full_read :
    (b : Bytes) (r : AnnounceResponse) (n : ℕ)
    → uint32 b ≡ ok r.action
    → number_at b 4 ≡ ok r.transaction_id
    → number_at b 8 ≡ ok r.interval
    → number_at b 12 ≡ ok r.leechers
    → number_at b 16 ≡ ok r.seeders
    → read_peers b 0 n ≡ ok r.peers
    → parse_full b n ≡ ok r
unfolding parse_full
parse_full_read b r n ha ht hi hl hs hp = rw (ha, ht, hi, hl, hs, hp)

-- An answer with its numbers in the range of their width is read back from a buffer that begins
-- with it, whatever stands behind it, also where up to five bytes more than the answer count as
-- received.
pub parse_announce_response-put_response :
    (r : AnnounceResponse) (tail : Bytes) (more : ℕ)
    → ResponseInRange r
    → more < 6
    → parse_announce_response (put_response r ++ tail) (20 + 6 * length r.peers + more) ≡ ok r
unfolding parse_announce_response put_response put_uint32
parse_announce_response-put_response r tail more h few =
    let n = length r.peers in
    let full : ltb (20 + 6 * n + more) 20 ≡ false = ground arith in
    let count : (20 + 6 * n + more - 20) / 6 ≡ n = omega arith in
    let a = put_uint32 r.action in
    let t = put_uint32 r.transaction_id in
    let i = put_uint32 r.interval in
    let l = put_uint32 r.leechers in
    let s = put_uint32 r.seeders in
    let ps = put_peers r.peers ++ tail in
    rw (full, count)
      (parse_full_read (put_response r ++ tail) r n
        (uint32-put r.action (t ++ (i ++ (l ++ (s ++ ps)))) h.action)
        (number_at_front a (i ++ (l ++ (s ++ ps))) 4 r.transaction_id refl h.transaction_id)
        (number_at_front (a ++ t) (l ++ (s ++ ps)) 8 r.interval refl h.interval)
        (number_at_front (a ++ (t ++ i)) (s ++ ps) 12 r.leechers refl h.leechers)
        (number_at_front (a ++ (t ++ (i ++ l))) ps 16 r.seeders refl h.seeders)
        (read_peers_front (a ++ (t ++ (i ++ (l ++ s)))) tail 0 r.peers refl h.peers))
