-- ===== src/Session/Run/Whole.antt =====
-- A download from its start: `NewTorrentSession` and `StartSession`, as cmd/client/main.go calls them.
use torrent_client.Common.{ℕ, ◌<◌, ◌≡◌, true, List, Bytes, length, All}
use torrent_client.Common.Outcome.{Outcome, ok, err, panic, no_fuel, ◌>>=◌}
use torrent_client.Session.Machine.Storing.{Multi}
use torrent_client.Session.Machine.Initial.{Starts, initialize-Starts}
use torrent_client.Session.Run.{System, Choice, run, start_system, finished}
use torrent_client.Session.Run.Safe.{download_complete}
use torrent_client.Session.Startup.{initialize}
use torrent_client.Session.Startup.Created.{Ready}
use torrent_client.Session.Startup.Verified.{on_disk}
use torrent_client.Storage.{Disk}
use torrent_client.Torrent.{TorrentFile, TorrentInfo, get_num_pieces}
use torrent_client.Tracker.{TorrentPeer}

module _ (sha1 : Bytes → Bytes) (place : TorrentFile → ℕ) (path : ℕ) (ti : TorrentInfo)
    (fuel rounds : ℕ) (peer_id info_hash : Bytes) where
  -- The session is made on the disk and started, for what `GetPeers` comes to; its goroutines take
  -- these turns.
  unfoldable pub download : Disk → Outcome (List TorrentPeer) → List Choice → Outcome System
  unfolding initialize run
  download d fetched turns = do
    (disk, bf) ← initialize sha1 place path d ti
    peers ← fetched
    run sha1 place path ti fuel rounds peer_id info_hash (start_system disk bf peers) turns

  -- A download from its start is right: for a torrent of several files at different places, with a
  -- positive piece length, a piece or more and a hash for each piece, on a disk where each file is
  -- missing or has its length: after any turns that come to their end and after which `scheduleWork`
  -- has returned, the disk holds each piece of the torrent with its hash.
  pub download-on_disk :
      (d : Disk) (fetched : Outcome (List TorrentPeer)) (turns : List Choice) (y : System)
      → Multi place ti
      → 0 < length ti.files
      → 0 < get_num_pieces ti
      → All (Ready place d) ti.files
      → download d fetched turns ≡ ok y
      → y.scheduler ≡ finished
      → (i : ℕ) → i < get_num_pieces ti
      → on_disk sha1 place y.session.disk ti i ≡ true
  unfolding download
  download-on_disk d fetched turns y m some_file some_piece ready runs ended =
      let s = initialize-Starts sha1 place path ti d m some_file ready in
      from s fetched (rw (s.starts) at runs)
    where
      from :
          (s : Starts sha1 place path ti d) (fetched : Outcome (List TorrentPeer))
          → (fetched >>= λ peers.
              run sha1 place path ti fuel rounds peer_id info_hash
                (start_system s.disk s.bits peers)
                turns)
            ≡ ok y
          → (i : ℕ) → i < get_num_pieces ti
          → on_disk sha1 place y.session.disk ti i ≡ true
      from s (ok peers) e =
          download_complete sha1 place path ti fuel rounds peer_id info_hash m s.disk s.has
            some_file some_piece s.bits s.checked peers turns y e ended
      from s (err x) e = absurd cc
      from s panic e = absurd cc
      from s no_fuel e = absurd cc
