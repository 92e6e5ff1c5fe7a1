-- ===== src/Fetcher/Tries.antt =====
-- Which answers `GetPeers` collects (pkg/torrent/peerfetcher.go).
use torrent_client.Common.{
  ℕ, zero, suc, ◌+◌, ◌%◌, ◌≤◌, ◌<◌, ◌≡◌, refl, ap, ◌⊎◌, inl, inr, false, Option, List, [], ◌++◌,
  append_assoc, append-nil, arith, ltb, ◌==◌, ltb→lt, Bool-cases, Bytes, length, get_or,
}
use torrent_client.Common.Outcome.{Outcome, ok}
use torrent_client.Fetcher.{
  TrackersPeerFetcher, peers_request, peers_of, ask_tracker, fetch_loop, get_peers,
}
use torrent_client.Tracker.{TorrentPeer, AnnounceRequest}

module _ (ask : ℕ → Bytes → AnnounceRequest → Option (List TorrentPeer)) (rand : ℕ → ℕ)
    (fetcher : TrackersPeerFetcher) where
  -- the answer at try `k`
  abbrev pub answer : ℕ → List TorrentPeer
  answer k = peers_of (
      ask k (get_or fetcher.tracker_addresses (rand k % length fetcher.tracker_addresses) [])
        (peers_request fetcher))

  -- the answers of `m` tries from `k` on, one behind the other
  unfoldable pub answers : (k m : ℕ) → List TorrentPeer
  answers k zero = []
  answers k (suc m) = answer k ++ answers (k + 1) m

  ask_tracker-answer :
      (k : ℕ)
      → 0 < length fetcher.tracker_addresses
      → ask_tracker ask rand fetcher k ≡ ok (answer k)
  unfolding ask_tracker
  ask_tracker-answer k h =
      let some_address : (length fetcher.tracker_addresses == 0) ≡ false = ground arith in
      rw (ask_tracker, some_address)

  -- The loop stops after `tries` tries, since there are no more or since it has 50 peers.
  pub record Collects (n k : ℕ) (peers : List TorrentPeer) (r : Outcome (List TorrentPeer))
      : Type 0 where
    pub tries : ℕ
    pub few : tries ≤ n
    pub collects : r ≡ ok (peers ++ answers k tries)
    pub stops : (tries ≡ n) ⊎ (50 ≤ length (peers ++ answers k tries))
    pub needed : (m : ℕ) → m < tries → length (peers ++ answers k m) < 50

  fetch_loop-Collects :
      (n k : ℕ) (peers : List TorrentPeer)
      → 0 < length fetcher.tracker_addresses
      → Collects n k peers (fetch_loop ask rand fetcher n k peers)
  unfolding fetch_loop answers
  fetch_loop-Collects zero k peers h = record {
    tries = 0;
    few = omega arith;
    collects = rw append-nil;
    stops = inl refl;
    needed = λ m lt. absurd (omega arith);
  }
  fetch_loop-Collects (suc n) k peers h = elim (Bool-cases (ltb (length peers) 50)) [
    | inr enough ↦
        rw (fetch_loop, enough)
          (record {
            tries = 0;
            few = omega arith;
            collects = rw append-nil;
            stops = inr (ground (arith, ap length (append-nil peers)));
            needed = λ m lt. absurd (omega arith);
          })
    | inl room ↦
        let c = fetch_loop-Collects n (k + 1) (peers ++ answer k) h in
        let all = append_assoc peers (answer k) (answers (k + 1) c.tries) in
        rw (fetch_loop, room, ask_tracker-answer k h)
          (record {
            tries = suc c.tries;
            few = omega (arith, c.few);
            collects = rw (← all) c.collects;
            stops = elim c.stops [ inl e ↦ inl (ap suc e) | inr e ↦ inr (rw (← all) e) ];
            needed = λ m lt. still k peers c.tries (ltb→lt _ _ room) c.needed m lt;
          })
  ]
    where
      still :
          (k : ℕ) (peers : List TorrentPeer) (t : ℕ)
          → length peers < 50
          → ((m : ℕ) → m < t → length ((peers ++ answer k) ++ answers (k + 1) m) < 50)
          → (m : ℕ) → m < suc t
          → length (peers ++ answers k m) < 50
      still k peers t h rest zero lt = rw (append-nil peers) h
      still k peers t h rest (suc m) lt =
          rw (← append_assoc peers (answer k) (answers (k + 1) m)) (rest m (omega arith))

  -- Where there is an address, `GetPeers` comes to an end without a panic, and returns the answers
  -- of its first tries, one behind the other: at most five, no more than are needed for 50 peers,
  -- and fewer than five only when there are 50. A tracker that does not answer counts as a try.
  pub get_peers-Collects :
      0 < length fetcher.tracker_addresses → Collects 5 0 [] (get_peers ask rand fetcher)
  unfolding get_peers
  get_peers-Collects h = fetch_loop-Collects 5 0 [] h
