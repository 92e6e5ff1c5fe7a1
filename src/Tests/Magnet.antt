-- ===== src/Tests/Magnet.antt =====
-- A topic, the URL of a tracker, and the metadata of the torrent of the storage tests.
use torrent_client.Common.{◌≡◌, none, some, if◌then◌else◌, Bytes, codes}
use torrent_client.Bencode.Value.{eq_bytes}
use torrent_client.Common.Outcome.{ok}
use torrent_client.Magnet.{check_metadata}
use torrent_client.Magnet.Links.{check_metadata-to_bencoded_string}
use torrent_client.Tests.Cache.{sample_info}
use torrent_client.Tests.Machine.{pad}
use torrent_client.Tests.Torrent.{sample-Writable}
use torrent_client.Torrent.Codec.{to_bencoded_string}
use torrent_client.Torrent.Codec.RoundTrip.{decoded}

check_metadata-to_bencoded_string_example :
    (metadata : Bytes) × (to_bencoded_string sample_info ≡ some metadata)
    × (check_metadata pad (codes "d5:filesld6:length") metadata
        ≡ ok (
            if eq_bytes (pad metadata) (codes "d5:filesld6:length")
            then some (decoded sample_info)
            else none))
check_metadata-to_bencoded_string_example =
    check_metadata-to_bencoded_string pad (codes "d5:filesld6:length") sample_info sample-Writable
