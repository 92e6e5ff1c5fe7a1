-- ===== src/Session/Worker/Closed.antt =====
-- A goroutine whose peer has closed its connection (pkg/torrent/torrentsession.go).
use torrent_client.Common.{ℕ, suc, ◌≡◌, refl, true, some, [], Bytes}
use torrent_client.Common.Outcome.{ok}
use torrent_client.Peer.{PeerConnection, Conn}
use torrent_client.Peer.Reader.{
  read_and_handle_messages, read_message, read_on, read_full, await, read_behind_header,
}
use torrent_client.Session.Machine.{Session}
use torrent_client.Session.Worker.{again, handle_round, after_messages}
use torrent_client.Torrent.{TorrentFile, TorrentInfo}

-- the connection of a peer that has closed it, with everything read
abbrev pub hung_up : PeerConnection → Conn → PeerConnection
hung_up pc c = record pc { conn = some (record c { arrived = []; arrivals = []; closed = true }) }

module _ (sha1 : Bytes → Bytes) (place : TorrentFile → ℕ) (path : ℕ) (ti : TorrentInfo)
    (fuel rounds : ℕ) where
  -- Once a peer has closed its connection and all that it sent is read, a round of
  -- `handlePeerConnection` changes nothing and the loop goes on, in every state of the session.
  pub closed_again :
      (s : Session) (pc : PeerConnection) (c : Conn)
      → handle_round sha1 place path ti fuel (suc rounds) s (hung_up pc c)
        ≡ ok (again s (hung_up pc c))
  unfolding handle_round read_and_handle_messages read_message read_on read_full await
      after_messages read_behind_header
  closed_again s pc c = refl
