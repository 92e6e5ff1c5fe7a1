-- ===== src/Peer/Metadata/Honest.antt =====
-- The metadata that a peer answers with (pkg/torrent/extensions.go).
use torrent_client.Common.{
  ℕ, zero, suc, ◌+◌, ◌-◌, ◌*◌, ◌≤◌, ◌<◌, ◌≡◌, refl, ap, ◌∙◌, true, false, not, none, some, List, [],
  ◌∷◌, ◌++◌, arith, ltb, if◌then◌else◌, Bytes, codes, length, replicate,
}
use torrent_client.Common.Int.{ℤ, max_int}
use torrent_client.Common.Outcome.{ok, no_metadata}
use torrent_client.Extension.{frame, new_request_message, serialize_metadata}
use torrent_client.Peer.{PeerConnection, Conn}
use torrent_client.Peer.Metadata.{
  start_metadata, await_piece, request_pieces, fetch_metadata, with_id, get_metadata, supported,
}
use torrent_client.Peer.Metadata.Assembly.{assembled, assembled_whole}
use torrent_client.Peer.Reader.{read_and_handle_message, or_stop}
use torrent_client.Storage.{Disk}
use torrent_client.Torrent.{TorrentFile, ceil_div}
use torrent_client.Peer.Metadata.Short.{length-data_body}
use torrent_client.Peer.Metadata.Replies.{
  data_body, replies, handle_metadata-data_body, read_and_handle_message-frame, send-works,
  await_piece-done, request_pieces_step,
}

module _ (place : TorrentFile → ℕ) (fuel : ℕ) (disk : Disk) where
  module _ (b : Bytes) (pc : PeerConnection) (c : Conn) (works : (k : ℕ) → c.faults k ≡ false)
      (small : length b ≤ max_int) (r : ℕ) where
    -- The connection with `i` pieces in its buffer, and the messages that are still to come.
    abbrev at_piece : (sent : List Bytes) → (i : ℕ) → (later : List Bytes) → PeerConnection
    at_piece sent i later = record pc {
      conn = some (record c { arrived = []; arrivals = later; sent = sent });
      extensions = record (pc.extensions) {
        requested_metadata = assembled b (i * 16384);
        requesting_metadata = true;
        pieces_received = i;
      };
    }

    read_piece :
        (sent : List Bytes) (i : ℕ) (later : List Bytes)
        → i * 16384 ≤ length b
        → read_and_handle_message place fuel disk
            (at_piece sent i (frame 3 (data_body b i) ∷ later))
          ≡ ok (at_piece sent (i + 1) later, none)
    read_piece sent i later inside =
        let p = at_piece sent i (frame 3 (data_body b i) ∷ later) in
        let further : (i + 1) * 16384 ≡ i * 16384 + 16384 = omega arith in
        rw further (
          read_and_handle_message-frame place fuel disk p _ (data_body b i) later _ refl refl refl
            (length-data_body b i inside small)
            (handle_metadata-data_body p.extensions b i refl inside small))

    await_piece-next :
        (sent : List Bytes) (i : ℕ) (later : List Bytes)
        → i * 16384 ≤ length b
        → await_piece place fuel disk
            (suc r)
            (suc r)
            i
            (at_piece sent i (frame 3 (data_body b i) ∷ later))
          ≡ ok (at_piece sent (i + 1) later, none)
    unfolding await_piece or_stop
    await_piece-next sent i later inside =
        let waiting : ltb i i ≡ false = ground arith in
        let come : ltb i (i + 1) ≡ true = ground arith in
        rw (await_piece, waiting, read_piece sent i later inside)
          (await_piece-done place fuel disk (suc r) r i (at_piece sent (i + 1) later) come)

    request_pieces-replies :
        (id : ℤ) (sent : List Bytes) (i m : ℕ)
        → (i + m) * 16384 < length b + 16384
        → (sent' : List Bytes) × (request_pieces place fuel disk
              (suc r)
              id
              i
              m
              (at_piece sent i (replies b i m))
            ≡ ok ((assembled b ((i + m) * 16384), none), at_piece sent' (i + m) []))
    unfolding replies
    request_pieces-replies id sent i zero h =
        let e : i + 0 ≡ i = omega arith in (sent, unfold request_pieces in rw e)
    request_pieces-replies id sent i (suc m) h =
        let msg = serialize_metadata (new_request_message id (ℤ.pos i)) in
        let later = replies b (i + 1) m in
        let front = frame 3 (data_body b i) ∷ later in
        let e : i + suc m ≡ i + 1 + m = omega arith in
        let inside : i * 16384 ≤ length b = omega arith in
        let (sent', rest) =
          request_pieces-replies id (sent ++ (msg ∷ [])) (i + 1) m (omega arith) in
        let same : replies b i (suc m) ≡ front = unfold replies in refl in
        (
          sent',
          rw (same, e)
              (request_pieces_step place fuel disk (suc r) id i m (at_piece sent i front)
                  (at_piece (sent ++ (msg ∷ [])) i front)
                  (at_piece (sent ++ (msg ∷ [])) (i + 1) later)
                  (send-works place fuel disk (at_piece sent i front) _ msg refl
                    (works (length sent)))
                  (await_piece-next (sent ++ (msg ∷ [])) i later inside)
                ∙ rest),
        )

    with_id-replies :
        (id : ℤ)
        → pc.extensions.supports_extensions ≡ true
        → pc.extensions.metadata_size ≡ ℤ.pos (length b)
        → pc.extensions.pieces_received ≡ 0
        → pc.conn ≡ some c
        → c.arrived ≡ []
        → c.arrivals ≡ replies b 0 (ceil_div (length b) 16384)
        → (pc' : PeerConnection) × (with_id place fuel disk (suc r) (some id) pc
            ≡ ok ((b, none), pc'))
    unfolding with_id fetch_metadata start_metadata
    with_id-replies id sup size none_yet hc ha hl =
        let n = ceil_div (length b) 16384 in
        let later = replies b 0 n in
        let enough : length b ≤ (0 + n) * 16384 = unfold ceil_div in omega arith in
        let short : (0 + n) * 16384 < length b + 16384 = unfold ceil_div in omega arith in
        let zeros : length b ≡ length b - 0 * 16384 = omega arith in
        let socket : pc.conn ≡ some (record c { arrived = []; arrivals = later; sent = c.sent }) =
          hc ∙ (λ j. some (record c { arrived = ha j; arrivals = hl j })) in
        let begins : start_metadata pc (length b) ≡ at_piece c.sent 0 later = λ j. record pc {
          conn = socket j;
          extensions = record (pc.extensions) {
            requested_metadata = replicate (zeros j) 0;
            requesting_metadata = true;
            pieces_received = none_yet j;
          };
        } in
        let (sent', got) = request_pieces-replies id c.sent 0 n short in
        (
          at_piece sent' (0 + n) [],
          ap
                (λ t.
                  if not t
                  then ok (([], some no_metadata), pc)
                  else fetch_metadata place fuel disk (suc r) id pc.extensions.metadata_size pc)
                sup
              ∙ ap (λ z. fetch_metadata place fuel disk (suc r) id z pc) size
              ∙ ap (request_pieces place fuel disk (suc r) id 0 n) begins
              ∙ got
              ∙ ap (λ x. ok ((x, none), at_piece sent' (0 + n) []))
                  (assembled_whole b ((0 + n) * 16384) enough),
        )

-- `getMetadata` returns the metadata from a peer that supports the extension, has told its size, and
-- whose data messages, one for each piece of 16384 bytes, come in their order, each before the
-- deadline of its read; no write fails, no piece was counted before, and the size is an `int`.
pub get_metadata-replies :
    (place : TorrentFile → ℕ) (fuel : ℕ) (disk : Disk) (b : Bytes) (pc : PeerConnection) (c : Conn)
    (id : ℤ) (r : ℕ)
    → ((k : ℕ) → c.faults k ≡ false)
    → length b ≤ max_int
    → pc.extensions.supports_extensions ≡ true
    → supported (codes "ut_metadata") pc.extensions.supported_extensions ≡ some id
    → pc.extensions.metadata_size ≡ ℤ.pos (length b)
    → pc.extensions.pieces_received ≡ 0
    → pc.conn ≡ some c
    → c.arrived ≡ []
    → c.arrivals ≡ replies b 0 (ceil_div (length b) 16384)
    → (pc' : PeerConnection) × (get_metadata place fuel disk (suc r) pc ≡ ok ((b, none), pc'))
unfolding get_metadata
get_metadata-replies place fuel disk b pc c id r works small sup has size none_yet hc ha hl =
    rw has (with_id-replies place fuel disk b pc c works small r id sup size none_yet hc ha hl)
