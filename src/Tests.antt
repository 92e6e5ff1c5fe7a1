-- ===== src/Tests.antt =====
-- The theorems applied at concrete inputs.
mod Bencode
mod Bitfield
mod Storage
mod Cache
mod Peer
mod Tracker
mod Machine
mod Run
mod Commands
mod Directories
mod Fetch
mod Torrent
mod Create
mod Dht
mod Magnet
mod Download
mod Fetcher
