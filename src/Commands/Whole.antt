-- ===== src/Commands/Whole.antt =====
-- A download from a torrent file or a magnet link to the disk (cmd/client/main.go).
use torrent_client.Common.{
  ℕ, ◌<◌, ◌≡◌, refl, ap, ◌∙◌, Bool, true, Option, some, List, [], ◌∷◌, map, Bytes, length, All,
}
use torrent_client.Commands.{
  as_files, as_torrent_info, start_download, download_from_file, download_from_magnet,
}
use torrent_client.Common.Outcome.{Outcome, ok, err, panic, no_fuel, panic_on_error, ◌>>=◌}
use torrent_client.Fetcher.{new_trackers_peer_fetcher, get_peers}
use torrent_client.Magnet.{MagnetUri, parse_magnet_uri, get_tracker_addresses}
use torrent_client.Magnet.Fetch.{
  get_live_tracker_addresses_from_urls, get_metadata_from_magnet_uri, get_live_tracker_addresses,
}
use torrent_client.Magnet.Fetch.Checked.{Genuine, get_metadata_from_magnet_uri-Genuine}
use torrent_client.Peer.{Conn, PeerInfo}
use torrent_client.Session.Machine.Storing.{Multi}
use torrent_client.Session.Run.{System, Choice, finished}
use torrent_client.Session.Run.Whole.{download, download-on_disk}
use torrent_client.Session.Startup.Created.{Ready}
use torrent_client.Session.Startup.Verified.{on_disk}
use torrent_client.Storage.{Disk}
use torrent_client.Torrent.{TorrentFile, TorrentInfo, get_num_pieces}
use torrent_client.Torrent.Codec.{Torrent, calc_file_info_hash, parse_torrent_file}
use torrent_client.Torrent.Codec.RoundTrip.{decoded_file, decoded}
use torrent_client.Tracker.{AnnounceRequest, TorrentPeer}

as_files-decoded : (fs : List TorrentFile) → as_files (map decoded_file fs) ≡ some fs
unfolding as_files
as_files-decoded [] = refl
as_files-decoded (f ∷ fs) = rw (as_files-decoded fs)

as_torrent_info-decoded : (ti : TorrentInfo) → as_torrent_info (decoded ti) ≡ some ti
unfolding as_torrent_info
as_torrent_info-decoded ti = rw (as_files-decoded ti.files)

-- What was bound before a result came.
bound :
    {A : Type 0} {B : Type 0} (m : Outcome A) (f : A → Outcome B) (b : B)
    → (m >>= f) ≡ ok b
    → (a : A) × (m ≡ ok a) × (f a ≡ ok b)
bound (ok a) f b e = (a, refl, e)
bound (err x) f b e = absurd cc
bound panic f b e = absurd cc
bound no_fuel f b e = absurd cc

some-injective :
    {A : Type 0} {a b : A} → ◌≡◌ {A = Outcome (Option A)} (ok (some a)) (ok (some b)) → a ≡ b
some-injective e = cc

module _ (sha1 : Bytes → Bytes) (place : TorrentFile → ℕ) (path : ℕ) (fuel rounds : ℕ)
    (peer_id : Bytes) (alive : Bytes → Bool) (order : List Bytes → List Bytes)
    (try_tracker : ℕ → Bytes → AnnounceRequest → Option (List TorrentPeer)) (rand : ℕ → ℕ)
    (ti : TorrentInfo) (d : Disk) (turns : List Choice) (y : System) (m : Multi place ti)
    (some_file : 0 < length ti.files) (some_piece : 0 < get_num_pieces ti)
    (ready : All (Ready place d) ti.files) (ended : y.scheduler ≡ finished) where
  start_download-on_disk :
      (info_hash : Bytes) (addrs : List Bytes)
      → start_download sha1 place path fuel rounds peer_id alive order try_tracker rand
          (decoded ti)
          info_hash
          addrs
          d
          turns
        ≡ ok (some y)
      → (i : ℕ) → i < get_num_pieces ti
      → on_disk sha1 place y.session.disk ti i ≡ true
  unfolding start_download
  start_download-on_disk info_hash addrs e =
      let fetched = get_peers try_tracker rand (new_trackers_peer_fetcher info_hash addrs) in
      let (y', runs, same) =
        bound (download sha1 place path ti fuel rounds peer_id info_hash d fetched turns) _ _
          (rw (start_download, as_torrent_info-decoded ti) at e) in
      download-on_disk sha1 place path ti fuel rounds peer_id info_hash d fetched turns y m
        some_file some_piece ready (runs ∙ ap ok (some-injective same)) ended

  pub download_from_file-on_disk :
      (spare content : Bytes) (tf : Torrent)
      → parse_torrent_file spare content ≡ ok tf
      → tf.info ≡ decoded ti
      → download_from_file sha1 place path fuel rounds peer_id alive order try_tracker rand spare
          content d turns
        ≡ ok (some y)
      → (i : ℕ) → i < get_num_pieces ti
      → on_disk sha1 place y.session.disk ti i ≡ true
  unfolding download_from_file
  download_from_file-on_disk spare content tf parses is e =
      let (info_hash, hashed, e1) =
        bound (panic_on_error (calc_file_info_hash sha1 spare content)) _ _ e in
      let (addrs, found, e2) =
        bound (get_tracker_addresses tf.announce_list) _ _ (rw parses at e1) in
      start_download-on_disk info_hash (get_live_tracker_addresses alive order addrs) (rw is at e2)

  -- A download from a magnet link is right, for any answers of the trackers and peers and any order
  -- of the goroutines' turns. The torrent that the search for the metadata returns has several files
  -- at different places, a positive piece length, a piece or more, a hash for each piece, and no
  -- negative number; each file is missing on the disk, or has its length. When `downloadFromMagnet`
  -- has come to an end, in turns after which `scheduleWork` has returned, the torrent was read out of
  -- metadata whose hash is that of the link, and the disk holds each piece with the torrent's hash
  -- for it.
  pub download_from_magnet-on_disk :
      (dial : PeerInfo → Option Conn) (ask : Bytes → AnnounceRequest → Option (List TorrentPeer))
      (parse_query : Bytes → Option (List (Bytes × List Bytes))) (search_id uri : Bytes)
      → get_metadata_from_magnet_uri sha1 place fuel d rounds dial ask parse_query alive order
          search_id uri
        ≡ ok (decoded ti)
      → download_from_magnet sha1 place path fuel rounds peer_id alive order try_tracker rand dial
          ask parse_query search_id uri d turns
        ≡ ok (some y)
      → ((link : MagnetUri) × (parse_magnet_uri parse_query uri ≡ ok link)
          × Genuine sha1 link.info_hash (decoded ti))
        × ((i : ℕ) → i < get_num_pieces ti → on_disk sha1 place y.session.disk ti i ≡ true)
  unfolding download_from_magnet
  download_from_magnet-on_disk dial ask parse_query search_id uri fetches e =
      let (link, parses, genuine) =
        get_metadata_from_magnet_uri-Genuine sha1 place fuel d rounds dial ask parse_query alive
          order search_id uri (decoded ti) fetches in
      let (addrs, found, e1) =
        bound (get_live_tracker_addresses_from_urls alive order link.trackers) _ _
          (rw (fetches, parses) at e) in
      ((link, parses, genuine), start_download-on_disk link.info_hash addrs e1)
