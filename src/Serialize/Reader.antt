-- ===== src/Serialize/Reader.antt =====
-- `ByteReader` of src/serialize.rs, and the little-endian `u32` reader over it.
pub mod Laws
use sedsprintf_rs.Prelude.{
  ℕ, ◌+◌, ◌-◌, ◌*◌, ◌/◌, ◌%◌, ◌^◌, ◌<◌, List, [], ◌∷◌, ◌++◌, ltb, length, take, drop, get_or,
  saturating_sub, if◌then◌else◌,
}
use sedsprintf_rs.Error.{Result, ok, err, deserialize, ◌>>=◌}

pub record ByteReader : Type 0 where
  pub buf : List ℕ
  pub off : ℕ

unfoldable pub new : List ℕ → ByteReader
new buf = record { buf = buf; off = 0 }

unfoldable pub remaining : ByteReader → ℕ
remaining r = saturating_sub (length r.buf) r.off

unfoldable pub read_bytes : ℕ → ByteReader → Result (List ℕ × ByteReader)
unfolding remaining
read_bytes n r =
    if ltb (remaining r) n
    then err (deserialize "short read")
    else ok (take n (drop r.off r.buf), record r { off = r.off + n })

-- `read_bytes(1)?[0]`.
unfoldable pub read_byte : ByteReader → Result (ℕ × ByteReader)
read_byte r = do (s, r') ← read_bytes 1 r; ok (get_or s 0 0, r')

-- `v.to_le_bytes()` of a `u32`.
unfoldable pub to_le_bytes32 : ℕ → List ℕ
to_le_bytes32 v = (v % 256) ∷ (v / 256 % 256) ∷ (v / 65536 % 256) ∷ (v / 16777216 % 256) ∷ []

unfoldable pub from_le_bytes32 : List ℕ → ℕ
from_le_bytes32 b =
    get_or b 0 0 + get_or b 1 0 * 256 + get_or b 2 0 * 65536 + get_or b 3 0 * 16777216

unfoldable pub write_u32_le : ℕ → List ℕ → List ℕ
unfolding to_le_bytes32
write_u32_le v out = out ++ to_le_bytes32 v

unfoldable pub read_u32_le : ByteReader → Result (ℕ × ByteReader)
read_u32_le r = do (b, r') ← read_bytes 4 r; ok (from_le_bytes32 b, r')
