-- ===== src/Peer/Reader.antt =====
-- pkg/torrent/peerprotocol.go: `ReadMessage` and its callers. A read takes what has arrived before
-- its deadline. `io.ReadFull` that gets fewer bytes than it wants fails with what the peer did, the
-- end of the stream or the deadline, and the bytes that it got are gone.
use torrent_client.Common.{
  ℕ, zero, suc, ◌+◌, ◌-◌, ◌%◌, ◌^◌, Option, none, some, [], ◌∷◌, ◌++◌, leb, if◌then◌else◌, Bytes,
  length, take, drop,
}
use torrent_client.Common.Outcome.{
  Outcome, ok, err, panic, no_fuel, check, read_failed, deadline, ◌>>=◌, ◌>>◌, Error,
}
use torrent_client.Peer.{PeerConnection, Conn, Step}
use torrent_client.Peer.Handler.{handle_message}
use torrent_client.Storage.{Disk}
use torrent_client.Torrent.{TorrentFile}
use torrent_client.Wire.{uint32}

-- the bytes that come before the deadline of this read
unfoldable pub await : Conn → Conn
await c = elim c.arrivals [
  | [] ↦ c
  | b ∷ later ↦ record c { arrived = c.arrived ++ b; arrivals = later }
]

-- `io.ReadFull(pc.conn, buf)` with `len(buf) = n`: the bytes or the error, and the connection
unfoldable pub read_full : Conn → ℕ → (Bytes × Option Error) × Conn
read_full c n =
    if leb n (length c.arrived)
    then ((take n c.arrived, none), record c { arrived = drop n c.arrived })
    else ((c.arrived, some (if c.closed then read_failed else deadline)), record c { arrived = [] })

-- What `ReadMessage` comes back with: the bytes or the error, and the connection.
abbrev pub Reading : Type 0
Reading = Outcome ((Bytes × Option Error) × PeerConnection)

unfoldable pub join_body : PeerConnection → (head : Bytes) → (Bytes × Option Error) × Conn → Reading
join_body pc head ((body, none), c) = ok ((head ++ body, none), record pc { conn = some c })
join_body pc head ((body, some e), c) = ok (([], some e), record pc { conn = some c })

-- The body of a message of `len` bytes. `make` wraps the size at 2^32, and then `msg[4:]` panics
-- if it is less than 4.
unfoldable pub read_body : PeerConnection → Conn → (head : Bytes) → (len : ℕ) → Reading
unfolding read_full join_body
read_body pc c head len =
    let size = (len + 4) % 2 ^ 32 in
    check (leb 4 size) >> join_body pc head (read_full c (size - 4))

unfoldable pub read_behind_header : PeerConnection → (Bytes × Option Error) × Conn → Reading
unfolding read_body uint32
read_behind_header pc ((head, none), c) = uint32 head >>= λ len. read_body pc c head len
read_behind_header pc ((head, some e), c) = ok (([], some e), record pc { conn = some c })

-- A nil connection panics.
unfoldable pub read_on : PeerConnection → Option Conn → Reading
unfolding read_behind_header read_full await
read_on pc none = panic
read_on pc (some c) = read_behind_header pc (read_full (await c) 4)

-- `ReadMessage`: the message with its length in front, or the error
unfoldable pub read_message : PeerConnection → Reading
unfolding read_on
read_message pc = read_on pc pc.conn

-- An error ends the loop.
unfoldable pub or_stop : PeerConnection × Option Error → (PeerConnection → Step) → Step
or_stop (pc, none) continue = continue pc
or_stop (pc, some e) continue = ok (pc, some e)

abbrev pub unless_deadline : Error → Option Error
unless_deadline deadline = none
unless_deadline e = some e

module _ (place : TorrentFile → ℕ) (fuel : ℕ) (disk : Disk) where
  unfoldable pub read_and_handle_message : PeerConnection → Step
  unfolding read_message handle_message
  read_and_handle_message pc = elim (read_message pc) [
    | ok ((msg, none), pc') ↦ handle_message place fuel disk pc' msg
    | ok ((msg, some e), pc') ↦ ok (pc', some e)
    | err e ↦ err e
    | panic ↦ panic
    | no_fuel ↦ no_fuel
  ]

  -- what `ReadAndHandleMessages` does with a message
  unfoldable pub after_reading :
      (Bytes × Option Error) × PeerConnection → (PeerConnection → Step) → Step
  unfolding handle_message or_stop
  after_reading ((msg, none), pc) continue =
      handle_message place fuel disk pc msg >>= λ r. or_stop r continue
  after_reading ((msg, some e), pc) continue = ok (pc, unless_deadline e)

  -- `ReadAndHandleMessages`, for `rounds` messages at most: it ends well when the deadline passes.
  unfoldable pub read_and_handle_messages : (rounds : ℕ) → PeerConnection → Step
  unfolding read_message after_reading
  read_and_handle_messages zero pc = no_fuel
  read_and_handle_messages (suc rounds) pc =
      read_message pc >>= λ r. after_reading r (λ pc'. read_and_handle_messages rounds pc')
