-- ===== src/Commands.antt =====
-- cmd/client/main.go: the commands, which download from a torrent file and from a magnet link, and
-- get the metadata of a torrent file. Which one runs, and for which file or link, is fixed in the
-- source. The pings, the answers of the trackers, the random choices and the dialling are parameters, and so are
-- the turns that the goroutines take. The lengths in a torrent are decoded as integers that may be
-- negative; the session is modelled for those that are not, and for another torrent the result of a
-- command here is `none`.
pub mod Whole
use torrent_client.Common.{ℕ, suc, Bool, Option, none, some, List, [], ◌∷◌, Bytes, length}
use torrent_client.Common.Int.{ℤ}
use torrent_client.Common.Outcome.{Outcome, ok, panic_on_error, ◌>>=◌}
use torrent_client.Fetcher.{new_trackers_peer_fetcher, get_peers}
use torrent_client.Magnet.{parse_magnet_uri, get_tracker_addresses}
use torrent_client.Magnet.Fetch.{
  get_live_tracker_addresses, get_live_tracker_addresses_from_urls, get_metadata_from_magnet_uri,
}
use torrent_client.Peer.{Conn, PeerInfo}
use torrent_client.Session.Run.{System, Choice}
use torrent_client.Session.Metadata.{get_session_metadata}
use torrent_client.Session.Startup.{initialize}
use torrent_client.Session.Run.Whole.{download}
use torrent_client.Storage.{Disk}
use torrent_client.Torrent.{TorrentFile, TorrentInfo}
use torrent_client.Torrent.Codec.{DecodedFile, DecodedInfo, calc_file_info_hash, parse_torrent_file}
use torrent_client.Tracker.{AnnounceRequest, TorrentPeer}

abbrev natural : ℤ → Option ℕ
natural (ℤ.pos n) = some n
natural (ℤ.negsuc n) = none

abbrev and_file : Option ℕ → List Bytes → Option (List TorrentFile) → Option (List TorrentFile)
and_file (some n) path (some fs) = some (record { length = n; path = path } ∷ fs)
and_file _ path _ = none

unfoldable pub as_files : List DecodedFile → Option (List TorrentFile)
as_files [] = some []
as_files (f ∷ fs) = and_file (natural f.length) f.path (as_files fs)

abbrev with_lengths :
    DecodedInfo → Option ℕ → Option ℕ → Option (List TorrentFile) → Option TorrentInfo
with_lengths di (some n) (some k) (some fs) =
    some (record { name = di.name; length = n; piece_length = k; pieces = di.pieces; files = fs })
with_lengths di _ _ _ = none

-- The torrent, where no length is negative.
unfoldable pub as_torrent_info : DecodedInfo → Option TorrentInfo
unfolding as_files
as_torrent_info di =
    with_lengths di (natural di.length) (natural di.piece_length) (as_files di.files)

module _ (sha1 : Bytes → Bytes) (place : TorrentFile → ℕ) (path : ℕ) (fuel rounds : ℕ)
    (peer_id : Bytes) (alive : Bytes → Bool) (order : List Bytes → List Bytes)
    (try_tracker : ℕ → Bytes → AnnounceRequest → Option (List TorrentPeer)) (rand : ℕ → ℕ) where
  -- The session over the torrent with the peers of these trackers, which both commands end with.
  unfoldable pub start_download :
      DecodedInfo
      → (info_hash : Bytes) → (addrs : List Bytes) → Disk
      → List Choice
      → Outcome (Option System)
  unfolding as_torrent_info new_trackers_peer_fetcher get_peers download
  start_download di info_hash addrs d turns = elim (as_torrent_info di) [
    | none ↦ ok none
    | some ti ↦
        let fetched = get_peers try_tracker rand (new_trackers_peer_fetcher info_hash addrs) in
        download sha1 place path ti fuel rounds peer_id info_hash d fetched turns >>= λ y.
        ok (some y)
  ]

  -- `downloadFromFile`, for a file with these bytes, and what its buffer holds behind them
  unfoldable pub download_from_file :
      (spare content : Bytes) → Disk → List Choice → Outcome (Option System)
  unfolding calc_file_info_hash parse_torrent_file get_tracker_addresses get_live_tracker_addresses
      start_download
  download_from_file spare content d turns = do
    info_hash ← panic_on_error (calc_file_info_hash sha1 spare content)
    tf ← panic_on_error (parse_torrent_file spare content)
    addrs ← get_tracker_addresses tf.announce_list
    start_download tf.info info_hash (get_live_tracker_addresses alive order addrs) d turns

  module _ (dial : PeerInfo → Option Conn)
      (ask : Bytes → AnnounceRequest → Option (List TorrentPeer))
      (parse_query : Bytes → Option (List (Bytes × List Bytes))) where
    -- `downloadFromMagnet`, for the peer id that the search for the metadata makes. After an error
    -- the link or the torrent is nil, and using it panics.
    unfoldable pub download_from_magnet :
        (search_id uri : Bytes) → Disk → List Choice → Outcome (Option System)
    unfolding parse_magnet_uri get_metadata_from_magnet_uri get_live_tracker_addresses_from_urls
        start_download
    download_from_magnet search_id uri d turns = do
      m ← panic_on_error (parse_magnet_uri parse_query uri)
      di ← panic_on_error (
          get_metadata_from_magnet_uri sha1 place fuel d rounds dial ask parse_query alive order
            search_id uri)
      addrs ← get_live_tracker_addresses_from_urls alive order m.trackers
      start_download di m.info_hash addrs d turns

    -- `metadata`: the bytes of the file that it makes, if it makes one
    unfoldable pub metadata : (spare content : Bytes) → Disk → Outcome (Option (Option Bytes))
    unfolding calc_file_info_hash parse_torrent_file get_tracker_addresses
        get_live_tracker_addresses as_torrent_info initialize new_trackers_peer_fetcher get_peers
        get_session_metadata
    metadata spare content d = do
      info_hash ← panic_on_error (calc_file_info_hash sha1 spare content)
      tf ← panic_on_error (parse_torrent_file spare content)
      urls ← get_tracker_addresses tf.announce_list
      let addrs = get_live_tracker_addresses alive order urls in
          elim (as_torrent_info tf.info) [
            | none ↦ ok none
            | some ti ↦ do
              (disk, bf) ← initialize sha1 place path d ti
              peers ← get_peers try_tracker rand (new_trackers_peer_fetcher info_hash addrs)
              b ← get_session_metadata place fuel disk rounds peer_id info_hash ti bf dial peers
              ok (some b)
          ]
