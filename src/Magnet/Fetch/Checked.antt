-- ===== src/Magnet/Fetch/Checked.antt =====
-- What a torrent out of a magnet link is checked against (pkg/torrent/magnet.go).
use torrent_client.Common.{
  ℕ, zero, suc, ◌≡◌, refl, inl, inr, Bool, Option, none, some, List, [], ◌∷◌, ◌==◌, if◌then◌else◌,
  Bool-cases, Option-cases, Bytes, length, if_rule,
}
use torrent_client.Bencode.Decode.{decode}
use torrent_client.Bencode.Encode.Sorting.{eq_bytes_iff}
use torrent_client.Bencode.Value.{eq_bytes}
use torrent_client.Common.Outcome.{
  Outcome, ok, err, no_metadata, Error, Yields, Yields-bind, Yields-chain, Yields-of, Yields-at,
}
use torrent_client.Magnet.{MagnetUri, parse_magnet_uri, check_metadata, info_of_metadata}
use torrent_client.Magnet.Fetch.{
  wait_unchoked, use_metadata, behind_handshake, get_metadata_from_peer, or_next, or_error,
  after_wait, try_peers, try_trackers, magnet_request, get_metadata_from_magnet_uri,
  get_live_tracker_addresses_from_urls,
}
use torrent_client.Peer.{PeerConnection, PeerInfo, Conn, new_peer_connection}
use torrent_client.Peer.Download.Messages.{IsSized}
use torrent_client.Peer.Handshake.{handshake}
use torrent_client.Peer.Metadata.{get_metadata}
use torrent_client.Peer.Metadata.Sized.{
  ask_unchoke-Sized, handshake-Sized, read_and_handle_messages-Sized, get_metadata-Fetches,
}
use torrent_client.Peer.Reader.{read_and_handle_messages}
use torrent_client.Session.Worker.{ask_unchoke}
use torrent_client.Storage.{Disk}
use torrent_client.Torrent.{TorrentFile}
use torrent_client.Torrent.Codec.{DecodedInfo}
use torrent_client.Tracker.{AnnounceRequest, TorrentPeer}
use torrent_client.Tracker.Connection.{to_peer_info}

module _ (sha1 : Bytes → Bytes) where
  -- A torrent that was read out of metadata with this hash.
  pub record Genuine (info_hash : Bytes) (ti : DecodedInfo) : Type 0 where
    pub metadata : Bytes
    pub hashes : sha1 metadata ≡ info_hash
    pub reads : info_of_metadata (decode [] metadata) ≡ ok (some ti)

  abbrev Found : Bytes → Option DecodedInfo → Type 0
  Found info_hash none = Unit
  Found info_hash (some ti) = Genuine info_hash ti

  check_metadata-Found :
      (info_hash metadata : Bytes)
      → Yields (Found info_hash) (check_metadata sha1 info_hash metadata)
  unfolding check_metadata
  check_metadata-Found info_hash metadata =
      if_rule (Yields (Found info_hash)) (eq_bytes (sha1 metadata) info_hash) _ _
        (λ same.
          Yields-of (Found info_hash) (info_of_metadata (decode [] metadata))
            (found ((eq_bytes_iff (sha1 metadata) info_hash).0 same)))
        (λ other. tt)
    where
      found :
          sha1 metadata ≡ info_hash
          → (o : Option DecodedInfo) → info_of_metadata (decode [] metadata) ≡ ok o
          → Found info_hash o
      found h none e = tt
      found h (some ti) e = record { metadata = metadata; hashes = h; reads = e }

  module _ (place : TorrentFile → ℕ) (fuel : ℕ) (disk : Disk) (rounds : ℕ) where
    after_wait-Sized :
        (n : ℕ × Bytes) (r : PeerConnection × Option Error)
        (continue : PeerConnection → Outcome PeerConnection)
        → IsSized n (r.0)
        → ((pc : PeerConnection) → IsSized n pc → Yields (IsSized n) (continue pc))
        → Yields (IsSized n) (after_wait r continue)
    unfolding after_wait
    after_wait-Sized n (pc, none) continue h k = k pc h
    after_wait-Sized n (pc, some e) continue h k = h

    wait_unchoked-Sized :
        (n : ℕ × Bytes) (m : ℕ) (pc : PeerConnection)
        → IsSized n pc
        → Yields (IsSized n) (wait_unchoked sha1 place fuel disk rounds m pc)
    unfolding wait_unchoked
    wait_unchoked-Sized n zero pc h = if_rule (Yields (IsSized n)) pc.choked _ _ (λ _. tt) (λ _. h)
    wait_unchoked-Sized n (suc m) pc h = elim (Bool-cases pc.choked) [
      | inr free ↦ rw (wait_unchoked, free) h
      | inl choked ↦
          rw (wait_unchoked, choked)
            (Yields-chain (IsSized n) (IsSized n) (ask_unchoke pc) _ (ask_unchoke-Sized n pc h)
              (λ pc' h'.
                Yields-chain (λ r. IsSized n (r.0)) (IsSized n)
                  (read_and_handle_messages place fuel disk rounds pc') _
                  (read_and_handle_messages-Sized n place fuel disk rounds pc' h')
                  (λ r h''. after_wait-Sized n r _ h'' (λ q k. wait_unchoked-Sized n m q k))))
    ]

    behind_handshake-Found :
        (n : ℕ × Bytes) (r : PeerConnection × Option Error)
        → IsSized n (r.0)
        → Yields (Found (n.1)) (behind_handshake sha1 place fuel disk rounds (n.1) r)
    unfolding behind_handshake use_metadata
    behind_handshake-Found n (pc, some e) h = tt
    behind_handshake-Found n (pc, none) h =
        Yields-chain (IsSized n) (Found (n.1)) (wait_unchoked sha1 place fuel disk rounds rounds pc)
          _ (wait_unchoked-Sized n rounds pc h)
          (λ pc' h'.
            Yields-chain (λ r. IsSized n (r.1)) (Found (n.1))
              (get_metadata place fuel disk rounds pc') _
              (get_metadata-Fetches n place fuel disk rounds pc' h') used)
      where
        used :
            (r : (Bytes × Option Error) × PeerConnection)
            → IsSized n (r.1)
            → Yields (Found (n.1)) (use_metadata sha1 place fuel disk rounds (n.1) r)
        used ((metadata, some e), pc) h = tt
        used ((metadata, none), pc) h = rw (h.1) (check_metadata-Found (n.1) metadata)

    get_metadata_from_peer-Found :
        (dial : PeerInfo → Option Conn) (p : TorrentPeer) (peer_id info_hash : Bytes)
        → Yields
            (Found info_hash)
            (get_metadata_from_peer sha1 place fuel disk rounds dial p peer_id info_hash)
    unfolding get_metadata_from_peer new_peer_connection
    get_metadata_from_peer-Found dial p peer_id info_hash =
        let info = to_peer_info p in
        let pc =
          new_peer_connection info peer_id info_hash 0 (record { bitfield = []; spare = [] }) in
        let n : ℕ × Bytes = (0, info_hash) in
        Yields-chain (λ r. IsSized n (r.0)) (Found info_hash) (handshake (dial info) pc) _
          (handshake-Sized n (dial info) pc (refl, refl)) (λ r h. behind_handshake-Found n r h)

    module _ (dial : PeerInfo → Option Conn)
        (ask : Bytes → AnnounceRequest → Option (List TorrentPeer)) where
      or_next-Found :
          (info_hash : Bytes) (o : Option DecodedInfo) (rest : Outcome (Option DecodedInfo))
          → Found info_hash o
          → Yields (Found info_hash) rest
          → Yields (Found info_hash) (or_next o rest)
      unfolding or_next
      or_next-Found info_hash none rest h k = k
      or_next-Found info_hash (some ti) rest h k = h

      try_peers-Found :
          (ps : List TorrentPeer) (peer_id info_hash : Bytes)
          → Yields
              (Found info_hash)
              (try_peers sha1 place fuel disk rounds dial ask ps peer_id info_hash)
      unfolding try_peers
      try_peers-Found [] peer_id info_hash = tt
      try_peers-Found (p ∷ ps) peer_id info_hash =
          Yields-chain (Found info_hash) (Found info_hash)
            (get_metadata_from_peer sha1 place fuel disk rounds dial p peer_id info_hash) _
            (get_metadata_from_peer-Found dial p peer_id info_hash)
            (λ r h. or_next-Found info_hash r _ h (try_peers-Found ps peer_id info_hash))

      try_trackers-Found :
          (urls : List Bytes) (peer_id info_hash : Bytes)
          → Yields
              (Found info_hash)
              (try_trackers sha1 place fuel disk rounds dial ask urls peer_id info_hash)
      unfolding try_trackers
      try_trackers-Found [] peer_id info_hash = tt
      try_trackers-Found (a ∷ urls) peer_id info_hash =
          elim (Option-cases (ask a (magnet_request info_hash))) [
            | inl silent ↦ rw (try_trackers, silent) (try_trackers-Found urls peer_id info_hash)
            | inr (ps, answered) ↦
                rw (try_trackers, answered)
                  (Yields-chain (Found info_hash) (Found info_hash)
                    (try_peers sha1 place fuel disk rounds dial ask ps peer_id info_hash) _
                    (try_peers-Found ps peer_id info_hash)
                    (λ r h.
                      or_next-Found info_hash r _ h (try_trackers-Found urls peer_id info_hash)))
          ]

      module _ (parse_query : Bytes → Option (List (Bytes × List Bytes))) (alive : Bytes → Bool)
          (order : List Bytes → List Bytes) where
        -- `GetMetadataFromMagnetUri` returns a torrent only when it was read out of metadata that
        -- hashes to the info hash of the link, whatever the trackers and the peers answer.
        pub get_metadata_from_magnet_uri-Genuine :
            (peer_id uri : Bytes) (ti : DecodedInfo)
            → get_metadata_from_magnet_uri sha1 place fuel disk rounds dial ask parse_query alive
                order peer_id uri
              ≡ ok ti
            → (m : MagnetUri) × (parse_magnet_uri parse_query uri ≡ ok m) × Genuine m.info_hash ti
        unfolding get_metadata_from_magnet_uri or_error
        get_metadata_from_magnet_uri-Genuine peer_id uri ti e =
            let parsed = parse_magnet_uri parse_query uri in
            let Right =
              λ (t : DecodedInfo). (m : MagnetUri) × (parsed ≡ ok m) × Genuine m.info_hash t in
            Yields-at Right _ ti
              (Yields-chain (λ m. parsed ≡ ok m) Right parsed _
                (Yields-of (λ m. parsed ≡ ok m) parsed (λ m h. h))
                (λ m h.
                  Yields-bind Right (get_live_tracker_addresses_from_urls alive order m.trackers) _
                    (λ urls.
                      Yields-chain (Found m.info_hash) Right
                        (if length urls == 0
                          then err no_metadata
                          else try_trackers sha1 place fuel disk rounds dial ask urls peer_id
                              m.info_hash)
                        _
                        (if_rule (Yields (Found m.info_hash)) (length urls == 0) _ _ (λ _. tt)
                          (λ _. try_trackers-Found urls peer_id m.info_hash))
                        (found m h))))
              e
          where
            found :
                (m : MagnetUri)
                → parse_magnet_uri parse_query uri ≡ ok m
                → (o : Option DecodedInfo) → Found m.info_hash o
                → Yields
                    (λ t.
                      (m : MagnetUri) × (parse_magnet_uri parse_query uri ≡ ok m)
                      × Genuine m.info_hash t)
                    (or_error o)
            found m h none k = tt
            found m h (some t) k = (m, h, k)
