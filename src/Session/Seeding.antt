-- ===== src/Session/Seeding.antt =====
-- pkg/torrent/torrentsession.go: `StartSeeding`, which takes connections, and the goroutine that
-- answers one. `rounds` bounds the messages that it handles. A connection that comes in has the
-- session's piece cache with it.
use torrent_client.Common.{
  ℕ, zero, suc, ◌+◌, Option, none, some, List, [], ◌∷◌, ◌++◌, leb, if◌then◌else◌, Bytes,
}
use torrent_client.Bitfield.{ThreadSafeBitfield}
use torrent_client.Cache.{PieceCache}
use torrent_client.Common.Outcome.{Outcome, ok, no_fuel, ◌>>=◌, Error}
use torrent_client.Peer.{PeerConnection, Conn, Step, new_received_peer_connection}
use torrent_client.Peer.Address.{peer_info_from_address}
use torrent_client.Peer.Handshake.{handshake}
use torrent_client.Peer.Reader.{read_and_handle_message}
use torrent_client.Session.Machine.{threads}
use torrent_client.Session.Worker.{is_failure}
use torrent_client.Storage.{Disk}
use torrent_client.Torrent.{TorrentFile, TorrentInfo, get_num_pieces, ceil_div}

module _ (place : TorrentFile → ℕ) (fuel : ℕ) (disk : Disk) where
  -- An error that is no deadline ends the loop.
  unfoldable pub after_answer : (PeerConnection → Step) → PeerConnection × Option Error → Step
  after_answer continue (pc, e) = if is_failure e then ok (pc, e) else continue pc

  -- `handleSeedingPeerConnection`: the connection that it leaves, with the error that ended it
  unfoldable pub handle_seeding : (rounds : ℕ) → PeerConnection → Step
  unfolding read_and_handle_message after_answer
  handle_seeding zero pc = no_fuel
  handle_seeding (suc rounds) pc = read_and_handle_message place fuel disk pc >>= λ r.
      after_answer (λ pc'. handle_seeding rounds pc') r

-- What `StartSeeding` has: the goroutines that it counts, and the connections that it answers.
pub record Seeding : Type 0 where
  pub peers_started : ℕ
  pub answering : List PeerConnection

abbrev pub admit : Seeding → PeerConnection × Option Error → Seeding
admit s (pc, some e) = s
admit s (pc, none) = record {
  peers_started = s.peers_started + 1;
  answering = s.answering ++ (pc ∷ []);
}

-- A round of `StartSeeding` with a connection that waits, from the address `remote`: with enough
-- goroutines it is left waiting, and a connection whose handshake fails is dropped.
unfoldable pub accept :
    (peer_id info_hash : Bytes)
    → TorrentInfo
    → ThreadSafeBitfield
    → PieceCache
    → Seeding
    → (remote : Bytes) → Conn
    → Outcome Seeding
unfolding peer_info_from_address new_received_peer_connection handshake ceil_div get_num_pieces
accept peer_id info_hash ti bf cache s remote c =
    let accepted = peer_info_from_address remote >>= λ info.
    handshake none (
      new_received_peer_connection info peer_id info_hash (ceil_div (get_num_pieces ti) 8) bf c
        cache)
    >>= λ r. ok (admit s r) in
    if leb threads s.peers_started then ok s else accepted
