-- ===== src/Session/Metadata.antt =====
-- pkg/torrent/torrentsession.go: `TorrentSession.GetMetadata`, which writes the metadata of the first
-- peer that it shakes hands with into a file. `rounds` bounds its loops; the file is the result.
use torrent_client.Tracker.{TorrentPeer}
use torrent_client.Tracker.Connection.{to_peer_info}
use torrent_client.Common.{
  ℕ, zero, suc, true, false, Option, none, some, List, [], ◌∷◌, if◌then◌else◌, Bytes,
}
use torrent_client.Bitfield.{ThreadSafeBitfield}
use torrent_client.Common.Outcome.{Outcome, ok, no_fuel, ◌>>=◌, Error}
use torrent_client.Peer.{PeerConnection, PeerInfo, Conn, new_peer_connection}
use torrent_client.Peer.Handshake.{handshake}
use torrent_client.Peer.Metadata.{get_metadata}
use torrent_client.Peer.Reader.{read_and_handle_messages}
use torrent_client.Session.Worker.{ask_unchoke}
use torrent_client.Storage.{Disk}
use torrent_client.Torrent.{TorrentFile, TorrentInfo, get_num_pieces, ceil_div}

module _ (place : TorrentFile → ℕ) (fuel : ℕ) (disk : Disk) (rounds : ℕ) where
  -- The loop that waits to be unchoked: an error of a read is only logged.
  unfoldable pub keep_asking : (n : ℕ) → PeerConnection → Outcome PeerConnection
  unfolding ask_unchoke read_and_handle_messages
  keep_asking zero pc = if pc.choked then no_fuel else ok pc
  keep_asking (suc n) pc = elim pc.choked [
    | false ↦ ok pc
    | true ↦ ask_unchoke pc >>= λ pc'.
        read_and_handle_messages place fuel disk rounds pc' >>= λ r. keep_asking n (r.0)
  ]

  -- The bytes that go into the file, whether their hash is right or not; an error leaves none.
  unfoldable pub metadata_of : PeerConnection → Outcome Bytes
  unfolding keep_asking get_metadata
  metadata_of pc =
      keep_asking rounds pc >>= λ pc'. get_metadata place fuel disk rounds pc' >>= λ r. ok (r.0.0)

  module _ (peer_id info_hash : Bytes) (ti : TorrentInfo) (bf : ThreadSafeBitfield)
      (dial : PeerInfo → Option Conn) where
    -- behind the handshake with a peer; `next` is what comes of the others.
    unfoldable pub after_handshake :
        PeerConnection × Option Error → (next : Outcome (Option Bytes)) → Outcome (Option Bytes)
    unfolding metadata_of
    after_handshake (pc, none) next = metadata_of pc >>= λ b. ok (some b)
    after_handshake (pc, some e) next = next

    -- `GetMetadata` over the peers that `GetPeers` found: what the file has, if it is made
    unfoldable pub get_session_metadata : List TorrentPeer → Outcome (Option Bytes)
    unfolding to_peer_info new_peer_connection handshake ceil_div get_num_pieces after_handshake
    get_session_metadata [] = ok none
    get_session_metadata (p ∷ ps) =
        let info = to_peer_info p in
        let pc = new_peer_connection info peer_id info_hash (ceil_div (get_num_pieces ti) 8) bf in
        handshake (dial info) pc >>= λ r. after_handshake r (get_session_metadata ps)
