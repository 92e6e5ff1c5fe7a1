-- ===== src/Fetcher.antt =====
-- pkg/torrent/peerfetcher.go: peers from trackers. What a tracker answers, if it answers, is a
-- parameter, and so are the random choices.
pub mod Tries
use torrent_client.Common.{
  ℕ, zero, suc, ◌+◌, ◌-◌, ◌%◌, ◌^◌, true, false, Option, none, some, List, [], ◌++◌, ltb, ◌==◌,
  Bytes, length, get_or, replicate,
}
use torrent_client.Common.Outcome.{Outcome, ok, panic, ◌>>=◌}
use torrent_client.Tracker.{TorrentPeer, AnnounceRequest}

-- `TrackersPeerFetcher` and `UDPTracker`, which have the same fields
pub record TrackersPeerFetcher : Type 0 where
  pub tracker_addresses : List Bytes
  pub info_hash : Bytes

-- `NewTrackersPeerFetcher`
unfoldable pub new_trackers_peer_fetcher : (info_hash : Bytes) → List Bytes → TrackersPeerFetcher
new_trackers_peer_fetcher info_hash tracker_addresses = record {
  tracker_addresses = tracker_addresses;
  info_hash = info_hash;
}

-- The request of `GetPeers`: `NumWant` is -1 as a word.
unfoldable pub peers_request : TrackersPeerFetcher → AnnounceRequest
peers_request fetcher = record {
  connection_id = 0;
  transaction_id = 0;
  info_hash = fetcher.info_hash;
  peer_id = replicate 20 0;
  downloaded = 0;
  left = 1;
  uploaded = 0;
  event = 0;
  ipaddr = 0;
  key = 0;
  num_want = 2 ^ 32 - 1;
  port = 6881;
}

-- the peers of an answer, where there is one
abbrev pub peers_of : Option (List TorrentPeer) → List TorrentPeer
peers_of none = []
peers_of (some ps) = ps

-- `ask k address r` is what `NewUDPTrackerConn` and `Announce` come to at try `k`, `rand k` the
-- number behind `rand.Intn` then.
module _ (ask : ℕ → Bytes → AnnounceRequest → Option (List TorrentPeer)) (rand : ℕ → ℕ) where
  -- one round of the loop
  unfoldable pub ask_tracker : TrackersPeerFetcher → (k : ℕ) → Outcome (List TorrentPeer)
  unfolding peers_request
  ask_tracker fetcher k = elim (length fetcher.tracker_addresses == 0) [
    | true ↦ panic
    | false ↦
        let i = rand k % length fetcher.tracker_addresses in
        ok (peers_of (ask k (get_or fetcher.tracker_addresses i []) (peers_request fetcher)))
  ]

  -- The loop of `GetPeers`, with `n` tries left.
  unfoldable pub fetch_loop :
      TrackersPeerFetcher → (n k : ℕ) → (peers : List TorrentPeer) → Outcome (List TorrentPeer)
  unfolding ask_tracker
  fetch_loop fetcher zero k peers = ok peers
  fetch_loop fetcher (suc n) k peers = elim (ltb (length peers) 50) [
    | false ↦ ok peers
    | true ↦ ask_tracker fetcher k >>= λ ps. fetch_loop fetcher n (k + 1) (peers ++ ps)
  ]

  -- `GetPeers`, and `AnnounceAndGetPeers`, which does the same
  unfoldable pub get_peers : TrackersPeerFetcher → Outcome (List TorrentPeer)
  unfolding fetch_loop
  get_peers fetcher = fetch_loop fetcher 5 0 []
