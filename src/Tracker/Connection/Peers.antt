-- ===== src/Tracker/Connection/Peers.antt =====
-- The addresses of peers as text (pkg/torrent/tracker.go, pkg/torrent/peerprotocol.go).
use torrent_client.Common.{
  ℕ, zero, suc, ◌/◌, ◌%◌, ◌^◌, ◌≡◌, refl, false, ◌∷◌, ◌++◌, arith, ltb, ◌==◌, Bytes, All-append,
  if_rule,
}
use torrent_client.Bencode.Decimal.{format, digits}
use torrent_client.Common.Outcome.{ok}
use torrent_client.Peer.Address.{info_of_parts, peer_info_from_address}
use torrent_client.Magnet.Links.{Without, split_none, split_first}
use torrent_client.Tracker.{TorrentPeer}
use torrent_client.Tracker.Connection.{int32_to_ip_string, to_peer_info}

-- Digits are no colon, and neither is a dot.
digits-Without : (f n : ℕ) → Without b':' (digits f n)
unfolding digits
digits-Without zero n = tt
digits-Without (suc f) n =
    if_rule (Without b':') (ltb n 10) _ _ (λ small. (ground arith, tt))
      (λ large.
        All-append (λ c. (c == b':') ≡ false) (digits f (n / 10)) _ (digits-Without f (n / 10))
          (ground arith, tt))

format-Without : (n : ℕ) → Without b':' (format n)
unfolding format
format-Without n = digits-Without (suc n) n

with_dot : (s t : Bytes) → Without b':' s → Without b':' t → Without b':' (s ++ (b'.' ∷ t))
with_dot s t h k = All-append (λ c. (c == b':') ≡ false) s (b'.' ∷ t) h (refl, k)

ip-Without : (i : ℕ) → Without b':' (int32_to_ip_string i)
unfolding int32_to_ip_string
ip-Without i = with_dot _ _ (format-Without (i / 2 ^ 24 % 256)) (
    with_dot _ _ (format-Without (i / 2 ^ 16 % 256))
      (with_dot _ _ (format-Without (i / 2 ^ 8 % 256)) (format-Without (i % 256))))

-- The address of a peer that a tracker names, written with a colon in front of the port as it is
-- dialled, is read back by `PeerInfoFromAddress` as the same address and port.
pub peer_info_from_address-to_peer_info :
    (p : TorrentPeer)
    → let info = to_peer_info p in
      peer_info_from_address (info.ipaddr ++ (b':' ∷ info.port)) ≡ ok info
unfolding peer_info_from_address info_of_parts to_peer_info
peer_info_from_address-to_peer_info p = rw (
  split_first b':' (int32_to_ip_string p.ip_addr) (format p.port) (ip-Without p.ip_addr),
  split_none b':' (format p.port) (format-Without p.port),
)
