-- ===== src/Tests/Run.antt =====
-- A session of the torrent of the machine tests over its turns: one peer, which sends the piece that
-- is missing.
use torrent_client.Tracker.{TorrentPeer}
use torrent_client.Common.{
  ◌<◌, ◌≡◌, refl, inr, true, false, Option, none, some, List, [], ◌∷◌, ◌++◌, arith, Bytes, codes,
  get_elem?, replicate,
}
use torrent_client.Torrent.{get_total_length, get_num_pieces}
use torrent_client.Bitfield.{new_thread_safe_bitfield}
use torrent_client.Common.Outcome.{Outcome, ok}
use torrent_client.Peer.{Conn, piece_message}
use torrent_client.Session.Machine.{Reach, start_session}
use torrent_client.Session.Worker.Closed.{hung_up}
use torrent_client.Session.Run.Closed.{closed_forever}
use torrent_client.Peer.{PeerConnection, new_peer_connection}
use torrent_client.Session.Run.{
  Worker, looping, turn, System, Choice, schedule, work, start, run, start_system, finished,
}
use torrent_client.Session.Run.Refines.{run-Reach}
use torrent_client.Session.Run.Whole.{download, download-on_disk}
use torrent_client.Session.Startup.Verified.{on_disk}
use torrent_client.Tests.Machine.{pad, session_info, session-Multi, first_only}
use torrent_client.Tests.Storage.{place_of, sample_disk, sample_HasFiles}

abbrev some_hash : Bytes
some_hash = replicate 20 7

-- What the peer sends: its handshake, a bitfield with the second piece, an unchoke, nothing until a
-- deadline has passed, and the piece.
abbrev peer : Conn
peer = record {
  arrived = [];
  arrivals =
      (19 ∷ (codes "BitTorrent protocol" ++ (replicate 8 0 ++ (some_hash ++ replicate 20 5))))
      ∷ (0 ∷ 0 ∷ 0 ∷ 2 ∷ 5 ∷ 64 ∷ [])
      ∷ (0 ∷ 0 ∷ 0 ∷ 1 ∷ 1 ∷ [])
      ∷ []
      ∷ piece_message 1 0 (codes "wxyz")
      ∷ [];
  closed = false;
  sent = [];
  faults = λ k. false;
}

abbrev peers : List TorrentPeer
peers = record { ip_addr = 3232235777; port = 6881 } ∷ []

abbrev fresh : PeerConnection
fresh =
    new_peer_connection (record { ipaddr = []; port = [] }) (replicate 20 1) some_hash 1 first_only

abbrev turns : List Choice
turns = start (some peer) ∷ schedule ∷ work 0 ∷ schedule ∷ []

abbrev outcome : Outcome System
outcome =
    run pad place_of 0 session_info 10 10 (replicate 20 1) some_hash
      (start_system sample_disk first_only peers) turns

abbrev end_of : Outcome System → System
end_of (ok y) = y
end_of _ = start_system sample_disk first_only peers

outcome-ok : outcome ≡ ok (end_of outcome)
unfolding run get_total_length
outcome-ok = refl

abbrev final : System
final = end_of outcome

-- The loop of the scheduler is left.
ended : final.scheduler ≡ finished
unfolding run get_total_length
ended = refl

run-Reach_example :
    Reach pad place_of 0 session_info (start_session sample_disk first_only) final.session
run-Reach_example =
    run-Reach pad place_of 0 session_info 10 10 (replicate 20 1) some_hash sample_disk first_only
      peers turns final outcome-ok

whole :
    download pad place_of 0 session_info 10 10
      (replicate 20 1)
      some_hash
      sample_disk
      (ok peers)
      turns
    ≡ ok final
unfolding download run get_total_length new_thread_safe_bitfield
whole = refl

download-on_disk_example : on_disk pad place_of final.session.disk session_info 1 ≡ true
unfolding get_num_pieces get_total_length
download-on_disk_example =
    download-on_disk pad place_of 0 session_info 10 10 (replicate 20 1) some_hash sample_disk
      (ok peers) turns final session-Multi (omega arith) (omega arith)
      (inr (sample_HasFiles.0), (inr (sample_HasFiles.1.0), tt)) whole ended 1 (omega arith)

-- The goroutine is started with a peer that has closed its connection behind its handshake.
abbrev short_peer : Conn
short_peer = record peer {
  arrivals =
      (19 ∷ (codes "BitTorrent protocol" ++ (replicate 8 0 ++ (some_hash ++ replicate 20 5)))) ∷ [];
  closed = true;
}

abbrev some_turns : List Choice
some_turns = start (some short_peer) ∷ work 0 ∷ []

abbrev system_after : List Choice → System
system_after cs = end_of (
    run pad place_of 0 session_info 10 10 (replicate 20 1) some_hash
      (start_system sample_disk first_only peers) cs)

abbrev with_peer : System
with_peer = system_after some_turns

abbrev sent_by : Option Conn → Conn
sent_by (some c) = c
sent_by none = peer

abbrev connection : List Worker → PeerConnection
connection (looping pc ∷ ws) = pc
connection _ = fresh

abbrev short_connection : PeerConnection
short_connection = connection with_peer.workers

abbrev closed_conn : Conn
closed_conn = sent_by short_connection.conn

abbrev more_turns : List Choice
more_turns = work 0 ∷ schedule ∷ work 0 ∷ start none ∷ work 0 ∷ []

abbrev later : System
later =
    end_of (run pad place_of 0 session_info 10 10 (replicate 20 1) some_hash with_peer more_turns)

with_peer-ok :
    run pad place_of 0 session_info 10 10
      (replicate 20 1)
      some_hash
      (start_system sample_disk first_only peers)
      some_turns
    ≡ ok with_peer
unfolding run get_total_length
with_peer-ok = refl

later-ok :
    run pad place_of 0 session_info 10 10 (replicate 20 1) some_hash with_peer more_turns ≡ ok later
unfolding run get_total_length
later-ok = refl

is_short : get_elem? with_peer.workers 0 ≡ some (looping (hung_up short_connection closed_conn))
unfolding run get_total_length
is_short = refl

closed_forever_example :
    (get_elem? later.workers 0 ≡ some (looping (hung_up short_connection closed_conn)))
    × (turn pad place_of 0 session_info 10 10 (replicate 20 1) some_hash later (work 0) ≡ ok later)
    × (0 < later.peers_started)
closed_forever_example =
    closed_forever pad place_of 0 session_info 10 9 (replicate 20 1) some_hash 0 short_connection
      closed_conn sample_disk first_only peers some_turns more_turns with_peer later with_peer-ok
      is_short later-ok
