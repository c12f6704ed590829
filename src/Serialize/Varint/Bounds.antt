-- ===== src/Serialize/Varint/Bounds.antt =====
-- `read_uleb128` on any input, well formed or not.
use sedsprintf_rs.Prelude.{ℕ, zero, suc, ◌+◌, ◌≤◌, ◌<◌, ◌≡◌, length, IsU64, arith, bit_or-lt}
use sedsprintf_rs.Error.{ok, >>=-eq-ok}
use sedsprintf_rs.Serialize.Reader.{ByteReader, remaining, read_bytes, read_byte}
use sedsprintf_rs.Serialize.Varint.{or_group, read_loop, read_uleb128}

pub read_byte_moves :
    (r r' : ByteReader) (b : ℕ)
    → read_byte r ≡ ok (b, r')
    → (r'.buf ≡ r.buf) × (r'.off ≡ r.off + 1) × (r.off < length r.buf)
unfolding read_byte read_bytes remaining
read_byte_moves r r' b e = ground arith

or_group-IsU64 : (acc b shift : ℕ) → IsU64 acc → IsU64 (or_group acc b shift)
or_group-IsU64 acc b shift h = bit_or-lt 64 acc _ h (omega arith)

read_loop_bounds :
    (rounds acc shift : ℕ) (r r' : ByteReader) (v : ℕ)
    → IsU64 acc
    → read_loop rounds acc shift r ≡ ok (v, r')
    → IsU64 v
      × (r'.buf ≡ r.buf)
      × (r.off < r'.off)
      × (r'.off ≤ r.off + rounds)
      × (r'.off ≤ length r.buf)
unfolding read_loop
read_loop_bounds zero acc shift r r' v h e = cc
read_loop_bounds (suc rounds) acc shift r r' v h e =
    let ((b, next), first, more) = >>=-eq-ok (read_byte r) _ e in
    ground (
      arith,
      read_byte_moves r next b,
      or_group-IsU64 acc b shift,
      read_loop_bounds rounds (or_group acc b shift) (shift + 7) next r' v,
    )

-- Whatever the bytes, a number that `read_uleb128` returns is a `u64`, and the reader has moved by 1
-- to 10 bytes, stays on the same buffer and does not pass its end.
pub read_uleb128_bounds :
    (r r' : ByteReader) (v : ℕ)
    → read_uleb128 r ≡ ok (v, r')
    → IsU64 v
      × (r'.buf ≡ r.buf)
      × (r.off < r'.off)
      × (r'.off ≤ r.off + 10)
      × (r'.off ≤ length r.buf)
unfolding read_uleb128
read_uleb128_bounds r r' v e = read_loop_bounds 10 0 0 r r' v (omega arith) e
