-- ===== src/Tests/Commands.antt =====
-- A magnet link whose tracker names one peer. The peer sends the metadata of the torrent of the machine
-- tests, and then the piece that is missing on the disk.
use torrent_client.Common.{
  ℕ, ◌<◌, ◌≡◌, refl, inr, true, false, Option, some, List, [], ◌∷◌, ◌++◌, arith, Bytes, codes,
  replicate,
}
use torrent_client.Bitfield.{new_thread_safe_bitfield}
use torrent_client.Commands.{download_from_magnet}
use torrent_client.Commands.Whole.{download_from_magnet-on_disk}
use torrent_client.Common.Outcome.{Outcome, ok}
use torrent_client.Extension.{frame}
use torrent_client.Magnet.{MagnetUri, parse_magnet_uri}
use torrent_client.Magnet.Fetch.{get_metadata_from_magnet_uri}
use torrent_client.Magnet.Fetch.Checked.{Genuine}
use torrent_client.Magnet.Links.{hex_encode}
use torrent_client.Peer.{Conn, PeerInfo, piece_message}
use torrent_client.Session.Run.{System, Choice, schedule, work, start, start_system, finished}
use torrent_client.Session.Startup.Verified.{on_disk}
use torrent_client.Tests.Machine.{pad, session_info, session-Multi, first_only}
use torrent_client.Tests.Storage.{place_of, sample_disk, sample_HasFiles}
use torrent_client.Torrent.{get_num_pieces, get_total_length}
use torrent_client.Torrent.Codec.RoundTrip.{decoded}
use torrent_client.Tracker.{AnnounceRequest, TorrentPeer}

abbrev metadata : Bytes
metadata =
    codes
      "d5:filesld6:lengthi3e4:pathl1:aeed6:lengthi5e4:pathl1:beee4:name1:t12:piece lengthi4e6:pieces40:"
    ++ (session_info.pieces ++ codes "e")

abbrev topic : Bytes
topic = codes "urn:btih:" ++ hex_encode (pad metadata)

-- the query of the link, parsed
abbrev queries : Bytes → Option (List (Bytes × List Bytes))
queries q =
    some ((codes "xt", topic ∷ []) ∷ (codes "tr", codes "udp://tracker:69/announce" ∷ []) ∷ [])

-- a peer that begins with its handshake
abbrev sends : Bytes → List Bytes → Conn
sends reserved messages = record {
  arrived = [];
  arrivals =
      (19 ∷ (codes "BitTorrent protocol" ++ (reserved ++ (pad metadata ++ replicate 20 5))))
      ∷ messages;
  closed = false;
  sent = [];
  faults = λ k. false;
}

abbrev dial : PeerInfo → Option Conn
dial info = some (
    sends (0 ∷ 0 ∷ 0 ∷ 0 ∷ 0 ∷ 16 ∷ 0 ∷ 0 ∷ []) (
      frame 0 (codes "d1:md11:ut_metadatai3ee13:metadata_sizei137ee")
      ∷ (0 ∷ 0 ∷ 0 ∷ 1 ∷ 1 ∷ [])
      ∷ []
      ∷ frame 3 (codes "d8:msg_typei1e5:piecei0e10:total_sizei137ee" ++ metadata)
      ∷ []))

-- the same peer in the session
abbrev serving : Conn
serving = sends (replicate 8 0) (
    (0 ∷ 0 ∷ 0 ∷ 2 ∷ 5 ∷ 64 ∷ [])
    ∷ (0 ∷ 0 ∷ 0 ∷ 1 ∷ 1 ∷ [])
    ∷ []
    ∷ piece_message 1 0 (codes "wxyz")
    ∷ [])

abbrev ask : Bytes → AnnounceRequest → Option (List TorrentPeer)
ask address r = some (record { ip_addr = 3232235777; port = 6881 } ∷ [])

abbrev uri : Bytes
uri = codes "magnet:?link"

abbrev turns : List Choice
turns = start (some serving) ∷ schedule ∷ work 0 ∷ schedule ∷ []

fetched :
    get_metadata_from_magnet_uri pad place_of 10 sample_disk 10 dial ask queries
      (λ a. true)
      (λ l. l)
      (replicate 20 1)
      uri
    ≡ ok (decoded session_info)
unfolding get_metadata_from_magnet_uri hex_encode
fetched = refl

abbrev outcome : Outcome (Option System)
outcome =
    download_from_magnet pad place_of 0 10 10 (replicate 20 1) (λ a. true) (λ l. l) (λ k. ask)
      (λ k. 0) dial ask queries (replicate 20 1) uri sample_disk turns

abbrev end_of : Outcome (Option System) → System
end_of (ok (some y)) = y
end_of _ = start_system sample_disk first_only []

abbrev final : System
final = end_of outcome

outcome-ok : outcome ≡ ok (some final)
unfolding download_from_magnet hex_encode get_total_length new_thread_safe_bitfield
outcome-ok = refl

ended : final.scheduler ≡ finished
unfolding download_from_magnet hex_encode get_total_length new_thread_safe_bitfield
ended = refl

download_from_magnet-on_disk_example :
    ((link : MagnetUri) × (parse_magnet_uri queries uri ≡ ok link)
      × Genuine pad link.info_hash (decoded session_info))
    × ((i : ℕ)
        → i < get_num_pieces session_info
        → on_disk pad place_of final.session.disk session_info i ≡ true)
unfolding get_num_pieces get_total_length
download_from_magnet-on_disk_example =
    download_from_magnet-on_disk pad place_of 0 10 10 (replicate 20 1) (λ a. true) (λ l. l)
      (λ k. ask) (λ k. 0) session_info sample_disk turns final session-Multi (omega arith)
      (omega arith) (inr (sample_HasFiles.0), (inr (sample_HasFiles.1.0), tt)) ended dial ask
      queries (replicate 20 1) uri fetched outcome-ok
