-- ===== src/Peer/Framing.antt =====
-- How messages are cut out of the bytes that arrive.
use torrent_client.Common.{
  ℕ, ◌+◌, ◌-◌, ◌%◌, ◌^◌, ◌≤◌, ◌<◌, ◌≡◌, refl, ap, ◌∙◌, true, false, none, some, ◌++◌, arith, leb,
  Bytes, length, length-append, take_front, drop_front,
}
use torrent_client.Common.Outcome.{Outcome, ok, panic, ◌>>=◌}
use torrent_client.Peer.{PeerConnection, Conn}
use torrent_client.Peer.Reader.{
  read_message, read_on, read_body, read_full, await, read_behind_header, join_body,
}
use torrent_client.Wire.{put_uint32}
use torrent_client.Wire.Laws.{uint32-put_only, length-put_uint32}

-- `read_full` where there are enough bytes
read_full_front :
    (c : Conn) (n : ℕ) (a b : Bytes)
    → length a ≡ n
    → c.arrived ≡ a ++ b
    → read_full c n ≡ ((a, none), record c { arrived = b })
unfolding read_full
read_full_front c n a b l h =
    let e = length-append a b in
    let enough : leb n (length (a ++ b)) ≡ true = ground (arith, e) in
    rw (← l) (rw (l, h, enough) (rw (← l) (rw (take_front a b, drop_front a b))))

read_message_front :
    (pc : PeerConnection) (c : Conn) (n : ℕ) (rest : Bytes)
    → pc.conn ≡ some c
    → (await c).arrived ≡ put_uint32 n ++ rest
    → n < 2 ^ 32
    → read_message pc ≡ read_body pc (record (await c) { arrived = rest }) (put_uint32 n) n
unfolding read_message read_on read_behind_header
read_message_front pc c n rest h arrives fits =
    let front = read_full_front (await c) 4 (put_uint32 n) rest (length-put_uint32 n) arrives in
    let c' = record (await c) { arrived = rest } in
    let behind = λ (m : Outcome ℕ). m >>= λ len. read_body pc c' (put_uint32 n) len in
    ap (read_on pc) h ∙ ap (read_behind_header pc) front ∙ ap behind (uint32-put_only n fits)

-- Every message of less than 2^32 - 4 bytes that has arrived whole is read whole, with its length
-- in front, and what has arrived behind it stays for the next read.
pub read_message-put_uint32 :
    (pc : PeerConnection) (c : Conn) (body rest : Bytes)
    → pc.conn ≡ some c
    → (await c).arrived ≡ put_uint32 (length body) ++ (body ++ rest)
    → length body < 2 ^ 32 - 4
    → read_message pc
      ≡ ok (
        (put_uint32 (length body) ++ body, none),
        record pc { conn = some (record (await c) { arrived = rest }) },
      )
unfolding read_body join_body
read_message-put_uint32 pc c body rest h arrives small =
    let c' = record (await c) { arrived = body ++ rest } in
    let size : (length body + 4) % 2 ^ 32 ≡ length body + 4 = omega arith in
    let sub : length body + 4 - 4 ≡ length body = omega arith in
    let four : leb 4 (length body + 4) ≡ true = ground arith in
    read_message_front pc c (length body) (body ++ rest) h arrives (omega arith)
    ∙ rw (size, four, sub, read_full_front c' (length body) body rest refl refl)

-- A length of 2^32 - 4 or more makes the read panic, whatever the peer sends behind it.
pub read_message_huge :
    (pc : PeerConnection) (c : Conn) (n : ℕ) (rest : Bytes)
    → pc.conn ≡ some c
    → (await c).arrived ≡ put_uint32 n ++ rest
    → 2 ^ 32 - 4 ≤ n
    → n < 2 ^ 32
    → read_message pc ≡ panic
unfolding read_body
read_message_huge pc c n rest h arrives large fits =
    let small : leb 4 ((n + 4) % 2 ^ 32) ≡ false = ground arith in
    read_message_front pc c n rest h arrives fits ∙ rw small
