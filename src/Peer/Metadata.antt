-- ===== src/Peer/Metadata.antt =====
-- pkg/torrent/extensions.go: `getMetadata`, which asks a peer for the metadata of a torrent in pieces
-- of 16384 bytes, one after the other. A size below zero panics in `make`; one that memory cannot
-- hold is left out.
pub mod Sized
pub mod Assembly
pub mod Replies
pub mod Short
pub mod Honest
use torrent_client.Common.{
  ℕ, zero, suc, ◌+◌, true, false, not, Option, none, some, List, [], ◌∷◌, ltb, if◌then◌else◌, Bytes,
  codes,
}
use torrent_client.Bencode.Value.{eq_bytes}
use torrent_client.Common.Int.{ℤ}
use torrent_client.Common.Outcome.{Outcome, ok, panic, no_fuel, no_metadata, ◌>>=◌, Error}
use torrent_client.Extension.{Extensions, new_request_message, serialize_metadata}
use torrent_client.Peer.{PeerConnection, Step, send}
use torrent_client.Peer.Reader.{or_stop, read_and_handle_message}
use torrent_client.Storage.{Disk}
use torrent_client.Torrent.{TorrentFile, ceil_div}
use torrent_client.Wire.{make}

-- `pc.SupportedExtensions[k]`, where it is there
unfoldable pub supported : Bytes → List (Bytes × ℤ) → Option ℤ
unfolding eq_bytes
supported k [] = none
supported k ((j, z) ∷ l) = let rest = supported k l in if eq_bytes j k then some z else rest

-- The state of the exchange at the start: `PiecesReceived` stays as it is.
unfoldable pub start_metadata : PeerConnection → (size : ℕ) → PeerConnection
start_metadata pc size = record pc {
  extensions = record (pc.extensions) {
    requested_metadata = make size;
    requesting_metadata = true;
  };
}

-- What `getMetadata` returns: the metadata or the error, and the connection.
abbrev pub MetadataResult : Type 0
MetadataResult = Outcome ((Bytes × Option Error) × PeerConnection)

-- An error ends it.
unfoldable pub or_fail :
    PeerConnection × Option Error → (PeerConnection → MetadataResult) → MetadataResult
or_fail (pc, none) continue = continue pc
or_fail (pc, some e) continue = ok (([], some e), pc)

module _ (place : TorrentFile → ℕ) (fuel : ℕ) (disk : Disk) (rounds : ℕ) where
  -- The inner loop in `n` rounds: messages are handled until more than `i` pieces have come.
  unfoldable pub await_piece : (n i : ℕ) → PeerConnection → Step
  unfolding read_and_handle_message or_stop
  await_piece zero i pc = if ltb i pc.extensions.pieces_received then ok (pc, none) else no_fuel
  await_piece (suc n) i pc = elim (ltb i pc.extensions.pieces_received) [
    | true ↦ ok (pc, none)
    | false ↦
        read_and_handle_message place fuel disk pc >>= λ r. or_stop r (λ pc'. await_piece n i pc')
  ]

  -- The outer loop, for the `n` pieces from `i` on.
  unfoldable pub request_pieces : (id : ℤ) → (i n : ℕ) → PeerConnection → MetadataResult
  unfolding new_request_message serialize_metadata send await_piece or_fail
  request_pieces id i zero pc = ok ((pc.extensions.requested_metadata, none), pc)
  request_pieces id i (suc n) pc =
      send pc (serialize_metadata (new_request_message id (ℤ.pos i))) >>= λ r. or_fail r (λ pc'.
        await_piece rounds i pc' >>= λ q. or_fail q (λ pc''. request_pieces id (i + 1) n pc''))

  -- `make` and the loops, for the size that the peer has told
  unfoldable pub fetch_metadata : (id size : ℤ) → PeerConnection → MetadataResult
  unfolding start_metadata request_pieces ceil_div
  fetch_metadata id (ℤ.pos size) pc =
      request_pieces id 0 (ceil_div size 16384) (start_metadata pc size)
  fetch_metadata id (ℤ.negsuc n) pc = panic

  unfoldable pub with_id : Option ℤ → PeerConnection → MetadataResult
  unfolding fetch_metadata
  with_id none pc = ok (([], some no_metadata), pc)
  with_id (some id) pc =
      if not pc.extensions.supports_extensions
      then ok (([], some no_metadata), pc)
      else fetch_metadata id pc.extensions.metadata_size pc

  -- `getMetadata`
  unfoldable pub get_metadata : PeerConnection → MetadataResult
  unfolding supported with_id
  get_metadata pc = with_id (supported (codes "ut_metadata") pc.extensions.supported_extensions) pc
