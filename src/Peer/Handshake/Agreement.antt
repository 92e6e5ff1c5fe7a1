-- ===== src/Peer/Handshake/Agreement.antt =====
-- Two clients that shake hands.
use torrent_client.Common.{
  ◌≡◌, sym, ap, ◌∙◌, inl, inr, true, none, some, ◌++◌, arith, if◌then◌else◌, Bool-cases, length,
  take, drop, length-append, take_front, drop_front,
}
use torrent_client.Common.Outcome.{wrong_info_hash}
use torrent_client.Bencode.Value.{eq_bytes}
use torrent_client.Peer.{PeerConnection}
use torrent_client.Peer.Handshake.{get_handshake_message, handle_handshake_response}

-- The handshake of a client is understood by every other one: it is accepted exactly where the
-- info hashes are the same. Then the peer id is that of the sender, and extensions are known to
-- be supported; otherwise the error is the one for the info hash, and nothing changes.
pub handle_handshake_response-get_handshake_message :
    (a b : PeerConnection)
    → length b.info_hash ≡ 20
    → length b.client_peer_id ≡ 20
    → handle_handshake_response a (get_handshake_message b) ≡ (
        if eq_bytes b.info_hash a.info_hash
        then (
          record a {
            peer_id = b.client_peer_id;
            extensions = record (a.extensions) { supports_extensions = true };
          },
          none,
        )
        else (a, some wrong_info_hash))
unfolding handle_handshake_response get_handshake_message eq_bytes
handle_handshake_response-get_handshake_message a b hh hp =
    let whole : length (b.info_hash ++ b.client_peer_id) ≡ 40 =
      omega (arith, length-append b.info_hash b.client_peer_id) in
    let front : take 20 (b.info_hash ++ b.client_peer_id) ≡ b.info_hash =
      ap (λ n. take n (b.info_hash ++ b.client_peer_id)) (sym hh)
      ∙ take_front b.info_hash b.client_peer_id in
    let back : drop 20 (b.info_hash ++ b.client_peer_id) ≡ b.client_peer_id =
      ap (λ n. drop n (b.info_hash ++ b.client_peer_id)) (sym hh)
      ∙ drop_front b.info_hash b.client_peer_id in
    elim (Bool-cases (eq_bytes b.info_hash a.info_hash)) [
      | inl same ↦ rw (whole, front, back, same)
      | inr differs ↦ rw (whole, front, differs)
    ]
