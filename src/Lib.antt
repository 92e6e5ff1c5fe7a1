-- ===== src/Lib.antt =====
-- A BitTorrent client in Go: bencoding (pkg/bencode), the peer protocol, the pieces and their cache
-- (pkg/torrent), a DHT node (pkg/dht), and a list in a terminal (cmd/trackerwidget).
--
-- The files, and the code that each models:
-- - Common: names from the library, lists over native numbers, the range of `int`, and `Outcome`,
--   what a function of Go comes back with: a value, an error value or a panic.
-- - Bencode (pkg/bencode): `Value` is what an `interface{}` of the decoder or the encoder holds,
--   `Encode` is bencode_encoder.go, `Decode` is bencode_decoder.go, `Decimal` is what they use of
--   strconv. `Decode/…`, `RoundTrip/…`, `Normal` and `Broken` are about both.
-- - Bitfield: pkg/torrent/bitfield.go.
-- - Torrent: the record of a torrent and its sizes, pkg/torrent/common.go.
-- - Storage: how pieces lie in the files of a torrent, `writePieceToFiles` of
--   pkg/torrent/torrentsession.go and `getPieceFromFile` of pkg/torrent/cache.go. `Splice` and
--   `Layout` see the files as one text, `Write` and `Read` are about the two routines.
-- - Cache: `PieceCache` of pkg/torrent/cache.go. `Valid` has its invariant, `Transparent` what it
--   returns. A cache reads its pieces through Storage.
-- - Wire: numbers in messages, `binary.BigEndian`.
-- - Extension: the extension protocol, pkg/torrent/extension_messages.go and extensions.go, over
--   bencoded dictionaries.
-- - Peer: pkg/torrent/peerprotocol.go. Peer is the state of a connection and what it sends,
--   `Peer/Handler` what it does with a message, `Peer/Reader` how it reads one, `Peer/Handshake`
--   the handshake, `Peer/Download` the download of a piece. A connection that serves pieces takes
--   them from the cache. `Blocks`, `Exchange`, `Framing` and `Handshake/Agreement` are about these.
--   `Peer/Metadata` is `getMetadata` of pkg/torrent/extensions.go, `Peer/Buffered` the loop over a
--   buffer of messages, `Peer/Address` the address of a peer out of its text.
-- - Tracker: the packets of pkg/torrent/tracker.go; `Announce` is about the answers. `Connection` is
--   the exchange with a tracker over a socket, and the addresses of the peers that it names.
-- - Session: pkg/torrent/torrentsession.go. Session has the checks of a session on its pieces and
--   the choice of where it writes them; `Session/Startup` is `initialize` with the check of the files
--   that are there, and the files that it makes (pkg/util/file.go); `Session/Machine` is the course
--   of a session, `scheduleWork` and the goroutines of `handlePeerConnection` as a step relation
--   over the state that they share. A session verifies what a connection downloads, and writes it
--   through Storage; the goroutines do not see each other but for the channels, the bitfield and the
--   disk. `Session/Worker` is one round of `handlePeerConnection`, over a connection of Peer and its
--   download, and `Session/Run` is `StartSession`: `scheduleWork`, `startPeers` and the goroutines,
--   which take their turns in any order; both are mapped to steps of the machine.
--   `Session/Run/Whole` is a download from `NewTorrentSession` on, as cmd/client/main.go starts it.
--   `Session/Startup/Directories` is what `initialize` does to the directories, over a tree of its
--   own: elsewhere a file that is made needs no directory.
--   `Session/Seeding` is `StartSeeding`, `Session/Metadata` the session's own `GetMetadata`.
-- - Torrent/Codec: the info dictionary from and to bencoding (pkg/torrent/common.go), torrent files
--   (pkg/torrent/file.go) and their info hash (pkg/util/file.go).
-- - Create: torrents of files and directories, pkg/torrent/util.go; it reads the files as the check
--   at the start of a session does.
-- - Magnet: magnet links, the check of metadata (pkg/torrent/magnet.go) and the addresses of trackers.
--   `Magnet/Fetch` is the way from a link to its torrent, over Tracker and Peer, with the trackers
--   that answer a ping (pkg/util/address.go).
-- - Fetcher: peers from trackers, pkg/torrent/peerfetcher.go.
-- - Dht: pkg/dht/queries.go; `Dht/Table` is routingtable.go, `Dht/Client` dht.go.
-- - Commands: cmd/client/main.go, the commands that download from a torrent file and from a magnet
--   link, and the one that gets the metadata.
-- - TrackerWidget: cmd/trackerwidget/main.go.
-- - Tests: the theorems applied at concrete inputs.
--
-- Names are the code's, in lower case with underscores: `read_message` is `ReadMessage`. A part of a
-- function that has a name of its own is named for what it does.
--
-- Slices: where the program cuts a slice, Go checks the capacity, so the decoder takes the spare
-- bytes behind its input as a parameter. Numbers are natural numbers wherever a negative one cannot
-- come up, and are reduced modulo the width where the code converts them to `uint32` or `uint8`.
--
-- Fuel: `decode_with_count` takes one more than the length of its input, since each nested value is
-- at least a byte shorter. `write_piece_to_files` takes the length of the piece, since a round
-- writes a byte or more. `get_piece_from_file` has its fuel as an argument; the number of bytes
-- asked for is enough where the files have the lengths that the torrent says, and no number is
-- enough where one is shorter. The download of a piece and `read_and_handle_messages` have the
-- number of rounds as an argument: how many there are is up to the peer; so have the loops that
-- wait for a piece of metadata, to be unchoked, or for a message while seeding. `parse_messages`
-- takes off four bytes or more in each round. `fill` takes one more than the bytes that are missing
-- and the files that follow, `check_loop` and `create_empty_file` one more than the bytes of the
-- torrent and of the file. `hash_loop` has its fuel as an argument: one more than the bytes of the
-- files is enough. `put_node` has the depth of its calls as an argument, and there are tables for
-- which no depth is enough.
--
-- What lies outside is a parameter: where the path of a file leads to on the disk, what dialling
-- comes back with, which bytes arrive before which deadline, which writes fail, how much room
-- `append` leaves, the hash function, what `os.Open` finds at a path, the answers of trackers and
-- DHT nodes, random numbers, the bitwise operations of a package that the routing table uses,
-- `url.ParseQuery`, pings.
--
-- Concurrency: a step of the session is what one goroutine does between two points at which another
-- one may run. Any number of goroutines may run, a piece may arrive with any bytes of its length, a
-- goroutine may fail at any time, and that a piece is verified, written and marked is one step. In
-- `Session/Run` a turn is coarser: a round of a loop, up to a send that has to wait for room in its
-- channel, where the goroutine stays until it tries again.
--
-- Not modelled: logging and printing; the file names and links that cmd/client has in its source;
-- locks, each guarded method being one step; sockets but for the bytes that they carry; pings;
-- permissions and full disks; the terminal library of the widget; closing a connection, but for what
-- the other side sees of it; `Receive` of pkg/torrent/peerprotocol.go, a single read that nothing
-- calls.
mod Common
pub mod Bencode
pub mod Bitfield
pub mod Torrent
pub mod Storage
pub mod Cache
pub mod Wire
pub mod Extension
pub mod Peer
pub mod Tracker
pub mod Session
pub mod Create
pub mod Dht
pub mod Magnet
pub mod Fetcher
pub mod Commands
pub mod TrackerWidget
mod Tests
