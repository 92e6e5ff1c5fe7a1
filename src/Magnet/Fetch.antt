-- ===== src/Magnet/Fetch.antt =====
-- pkg/torrent/magnet.go: from a magnet link to the torrent, by way of its trackers and their peers;
-- pkg/util/address.go for the trackers that answer a ping. The file `rawbook.info`, which a copy of
-- the metadata is written to, is left out.
pub mod Checked
use torrent_client.Magnet.{split, get_all_tracker_addresses}
use torrent_client.Common.{
  ℕ, zero, suc, ◌-◌, ◌^◌, Bool, true, false, Option, none, some, List, [], ◌∷◌, ltb, ◌==◌,
  if◌then◌else◌, Bytes, length, replicate,
}
use torrent_client.Bitfield.{ThreadSafeBitfield}
use torrent_client.Common.Outcome.{
  Outcome, ok, err, panic, no_fuel, no_metadata, no_info, ◌>>=◌, Error,
}
use torrent_client.Magnet.{MagnetUri, parse_magnet_uri, get_tracker_addresses, check_metadata}
use torrent_client.Peer.{PeerConnection, PeerInfo, Conn, Step, new_peer_connection, no_request}
use torrent_client.Peer.Handshake.{handshake}
use torrent_client.Peer.Metadata.{get_metadata}
use torrent_client.Peer.Reader.{read_and_handle_messages}
use torrent_client.Session.Worker.{ask_unchoke}
use torrent_client.Storage.{Disk}
use torrent_client.Torrent.{TorrentFile}
use torrent_client.Torrent.Codec.{Torrent, DecodedInfo}
use torrent_client.Tracker.{AnnounceRequest, TorrentPeer}
use torrent_client.Tracker.Connection.{to_peer_info}

-- `p[0]` of what `strings.Split` makes
abbrev first_part : List Bytes → Bytes
first_part [] = []
first_part (p ∷ ps) = p

-- `LiveAddress`: `resolves` says that `NewPinger` gives no error, and `ping` is the number of packets
-- that came back when `Run` gives none.
unfoldable pub live_address : (resolves : Bytes → Bool) → (ping : Bytes → Option ℕ) → Bytes → Bool
unfolding split
live_address resolves ping addr =
    let host = first_part (split b':' addr) in
    if resolves host then elim (ping host) [ none ↦ false | some n ↦ ltb 0 n ] else false

-- `GetLiveTrackerAddress`, where `alive` is `LiveAddress`
unfoldable pub get_live_tracker_address : (alive : Bytes → Bool) → List Bytes → Bytes
get_live_tracker_address alive [] = []
get_live_tracker_address alive (a ∷ more) =
    let rest = get_live_tracker_address alive more in if alive a then a else rest

-- the method `GetLiveTrackerAddress` of a torrent
unfoldable pub live_address_of : (alive : Bytes → Bool) → Torrent → Outcome Bytes
unfolding get_all_tracker_addresses get_live_tracker_address
live_address_of alive t =
    get_all_tracker_addresses t >>= λ addrs. ok (get_live_tracker_address alive addrs)

-- `GetLiveTrackerAddresses`: each goroutine adds its address when its ping has been answered;
-- `order` is the order in which they come to it.
unfoldable pub get_live_tracker_addresses :
    (alive : Bytes → Bool) → (order : List Bytes → List Bytes) → List Bytes → List Bytes
get_live_tracker_addresses alive order addrs = live (order addrs)
  where
    live : List Bytes → List Bytes
    live [] = []
    live (a ∷ more) = let rest = live more in if alive a then a ∷ rest else rest

-- `GetLiveTrackerAddressesFromUrls`
unfoldable pub get_live_tracker_addresses_from_urls :
    (alive : Bytes → Bool) → (order : List Bytes → List Bytes) → List Bytes → Outcome (List Bytes)
unfolding get_tracker_addresses get_live_tracker_addresses
get_live_tracker_addresses_from_urls alive order urls =
    get_tracker_addresses urls >>= λ addrs. ok (get_live_tracker_addresses alive order addrs)

-- the request of `GetMetadataFromMagnetUri`; -1 is the largest word.
unfoldable pub magnet_request : (info_hash : Bytes) → AnnounceRequest
magnet_request info_hash = record {
  connection_id = 0;
  transaction_id = 0;
  info_hash = info_hash;
  peer_id = replicate 20 0;
  downloaded = 0;
  left = 100;
  uploaded = 0;
  event = 0;
  ipaddr = 0;
  key = 0;
  num_want = 2 ^ 32 - 1;
  port = 6881;
}

unfoldable pub after_wait :
    PeerConnection × Option Error
    → (PeerConnection → Outcome PeerConnection)
    → Outcome PeerConnection
after_wait (pc, none) continue = continue pc
after_wait (pc, some e) continue = ok pc

-- The first torrent that is found is returned.
unfoldable pub or_next :
    Option DecodedInfo → Outcome (Option DecodedInfo) → Outcome (Option DecodedInfo)
or_next (some ti) rest = ok (some ti)
or_next none rest = rest

unfoldable pub or_error : Option DecodedInfo → Outcome DecodedInfo
or_error none = err no_metadata
or_error (some ti) = ok ti

module _ (sha1 : Bytes → Bytes) (place : TorrentFile → ℕ) (fuel : ℕ) (disk : Disk)
    (rounds : ℕ) where
  -- The loop that waits to be unchoked, in `n` rounds. An error of a read leaves it, into a variable
  -- of its own, so that it is no error behind the loop.
  unfoldable pub wait_unchoked : (n : ℕ) → PeerConnection → Outcome PeerConnection
  unfolding ask_unchoke read_and_handle_messages after_wait
  wait_unchoked zero pc = if pc.choked then no_fuel else ok pc
  wait_unchoked (suc n) pc = elim pc.choked [
    | false ↦ ok pc
    | true ↦ ask_unchoke pc >>= λ pc'. read_and_handle_messages place fuel disk rounds pc' >>= λ r.
        after_wait r (λ pc''. wait_unchoked n pc'')
  ]

  -- what comes of the metadata: nil for an error
  unfoldable pub use_metadata :
      (info_hash : Bytes) → (Bytes × Option Error) × PeerConnection → Outcome (Option DecodedInfo)
  unfolding check_metadata
  use_metadata info_hash ((metadata, some e), pc) = ok none
  use_metadata info_hash ((metadata, none), pc) = check_metadata sha1 pc.info_hash metadata

  -- The part of `getMetadataFromPeer` behind the handshake.
  unfoldable pub behind_handshake :
      (info_hash : Bytes) → PeerConnection × Option Error → Outcome (Option DecodedInfo)
  unfolding wait_unchoked get_metadata use_metadata
  behind_handshake info_hash (pc, some e) = ok none
  behind_handshake info_hash (pc, none) = wait_unchoked rounds pc >>= λ pc'.
      get_metadata place fuel disk rounds pc' >>= λ r. use_metadata info_hash r

  -- `getMetadataFromPeer`; `dial` is what `net.DialTimeout` comes back with.
  unfoldable pub get_metadata_from_peer :
      (dial : PeerInfo → Option Conn)
      → TorrentPeer
      → (peer_id info_hash : Bytes) → Outcome (Option DecodedInfo)
  unfolding to_peer_info new_peer_connection handshake behind_handshake
  get_metadata_from_peer dial peer peer_id info_hash =
      let info = to_peer_info peer in
      let pc =
        new_peer_connection info peer_id info_hash 0 (record { bitfield = []; spare = [] }) in
      handshake (dial info) pc >>= λ r. behind_handshake info_hash r

  module _ (dial : PeerInfo → Option Conn)
      (ask : Bytes → AnnounceRequest → Option (List TorrentPeer)) where
    -- the loop over the peers of one answer
    unfoldable pub try_peers :
        List TorrentPeer → (peer_id info_hash : Bytes) → Outcome (Option DecodedInfo)
    unfolding get_metadata_from_peer or_next
    try_peers [] peer_id info_hash = ok none
    try_peers (p ∷ ps) peer_id info_hash = get_metadata_from_peer dial p peer_id info_hash >>= λ r.
        or_next r (try_peers ps peer_id info_hash)

    -- The loop over the trackers: `ask` is what `NewUDPTrackerConn` and `Announce` come to.
    unfoldable pub try_trackers :
        List Bytes → (peer_id info_hash : Bytes) → Outcome (Option DecodedInfo)
    unfolding try_peers magnet_request or_next
    try_trackers [] peer_id info_hash = ok none
    try_trackers (a ∷ more) peer_id info_hash = elim (ask a (magnet_request info_hash)) [
      | none ↦ try_trackers more peer_id info_hash
      | some peers ↦
          try_peers peers peer_id info_hash >>= λ r. or_next r (try_trackers more peer_id info_hash)
    ]

    module _ (parse_query : Bytes → Option (List (Bytes × List Bytes))) (alive : Bytes → Bool)
        (order : List Bytes → List Bytes) where
      -- `GetMetadataFromMagnetUri`, for the peer id that `GenPeerId` makes
      unfoldable pub get_metadata_from_magnet_uri : (peer_id uri : Bytes) → Outcome DecodedInfo
      unfolding parse_magnet_uri get_live_tracker_addresses_from_urls try_trackers or_error
      get_metadata_from_magnet_uri peer_id uri = do
        m ← parse_magnet_uri parse_query uri
        addrs ← get_live_tracker_addresses_from_urls alive order m.trackers
        found ←
            if length addrs == 0 then err no_metadata else try_trackers addrs peer_id m.info_hash
        or_error found
