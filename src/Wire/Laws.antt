-- ===== src/Wire/Laws.antt =====
-- Numbers are read back as they were written, reduced to the width.
use torrent_client.Common.{ℕ, ◌^◌, ◌<◌, ◌≡◌, refl, ap, ◌++◌, arith, Bytes, length}
use torrent_client.Common.Outcome.{ok}
use torrent_client.Wire.{put_uint16, put_uint32, put_uint64, uint16, uint32, uint64}

pub uint16-put : (x : ℕ) (rest : Bytes) → x < 2 ^ 16 → uint16 (put_uint16 x ++ rest) ≡ ok x
unfolding uint16 put_uint16
uint16-put x rest h = ap ok (omega arith)

pub uint32-put : (x : ℕ) (rest : Bytes) → x < 2 ^ 32 → uint32 (put_uint32 x ++ rest) ≡ ok x
unfolding uint32 put_uint32
uint32-put x rest h = ap ok (omega arith)

pub uint64-put : (x : ℕ) (rest : Bytes) → x < 2 ^ 64 → uint64 (put_uint64 x ++ rest) ≡ ok x
unfolding uint64 put_uint64
uint64-put x rest h = ap ok (omega arith)

-- The number alone.
pub uint32-put_only : (x : ℕ) → x < 2 ^ 32 → uint32 (put_uint32 x) ≡ ok x
unfolding uint32 put_uint32
uint32-put_only x h = ap ok (omega arith)

pub length-put_uint32 : (x : ℕ) → length (put_uint32 x) ≡ 4
unfolding put_uint32
length-put_uint32 x = refl

pub length-put_uint16 : (x : ℕ) → length (put_uint16 x) ≡ 2
unfolding put_uint16
length-put_uint16 x = refl
