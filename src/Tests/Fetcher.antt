-- ===== src/Tests/Fetcher.antt =====
-- Two trackers, of which one answers.
use torrent_client.Common.{
  ℕ, ◌%◌, Option, none, some, List, [], ◌∷◌, arith, ◌==◌, if◌then◌else◌, Bytes, codes,
}
use torrent_client.Fetcher.{TrackersPeerFetcher, get_peers}
use torrent_client.Fetcher.Tries.{Collects, get_peers-Collects}
use torrent_client.Tracker.{TorrentPeer, AnnounceRequest}

abbrev sample_fetcher : TrackersPeerFetcher
sample_fetcher = record {
  tracker_addresses = codes "10.0.0.1:6969" ∷ codes "10.0.0.2:6969" ∷ [];
  info_hash = codes "abcdefghij0123456789";
}

-- Each second try finds a peer.
abbrev ask : ℕ → Bytes → AnnounceRequest → Option (List TorrentPeer)
ask k address r = if k % 2 == 0 then some ((record { ip_addr = k; port = 6881 }) ∷ []) else none

get_peers-Collects_example :
    Collects ask (λ k. k) sample_fetcher 5 0 [] (get_peers ask (λ k. k) sample_fetcher)
get_peers-Collects_example = get_peers-Collects ask (λ k. k) sample_fetcher (omega arith)
