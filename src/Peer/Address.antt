-- ===== src/Peer/Address.antt =====
-- pkg/torrent/peerprotocol.go: the address of a peer out of its text.
use torrent_client.Common.{List, ◌∷◌, Bytes}
use torrent_client.Common.Outcome.{Outcome, ok, panic}
use torrent_client.Magnet.{split}
use torrent_client.Peer.{PeerInfo}

-- the first two parts
unfoldable pub info_of_parts : List Bytes → Outcome PeerInfo
info_of_parts (ip ∷ port ∷ ps) = ok (record { ipaddr = ip; port = port })
info_of_parts _ = panic

-- `PeerInfoFromAddress`
unfoldable pub peer_info_from_address : Bytes → Outcome PeerInfo
unfolding split info_of_parts
peer_info_from_address addr = info_of_parts (split b':' addr)
