-- ===== src/Serialize/Varint.antt =====
-- ULEB128 numbers of src/serialize.rs: seven bits a byte, lowest group first.
pub mod Encoding
pub mod RoundTrip
pub mod Bounds
use mathlib.Core.WellFounded.{Acc}
use sedsprintf_rs.Prelude.{
  ℕ, zero, suc, ◌+◌, ◌*◌, ◌/◌, ◌%◌, ◌^◌, ◌<◌, ◌≡◌, refl, bit_and, bit_or, Bool, true, false, dite,
  dec_lt, List, [], ◌∷◌, ◌++◌, leb, ◌==◌, lt_wf, if◌then◌else◌, u64_mod, arith,
}
use sedsprintf_rs.Error.{Result, ok, err, deserialize, ◌>>=◌}
use sedsprintf_rs.Serialize.Reader.{ByteReader, read_byte}

pub shift_lt : (v : ℕ) → 0 < v / 128 → v / 128 < v
shift_lt v h = omega arith

pub shift_lt_of_ge : (v : ℕ) → ¬ (v < 0x80) → v / 128 < v
shift_lt_of_ge v h = omega arith

-- `v >>= 7` is `v / 128`; the loop stops once that is 0.
write_loop : (v : ℕ) → List ℕ → Acc ◌<◌ v → List ℕ
write_loop v out (Acc.intro _ smaller) =
    let byte = bit_and v 0x7F in
    dite (dec_lt 0 (v / 128))
      (λ nonzero.
        write_loop (v / 128) (out ++ bit_or byte 0x80 ∷ []) (smaller _ (shift_lt v nonzero)))
      (λ _. out ++ byte ∷ [])

unfoldable pub write_uleb128 : ℕ → List ℕ → List ℕ
unfolding write_loop lt_wf dec_lt
write_uleb128 v out = write_loop v out (lt_wf.apply v)

-- `result |= ((b & 0x7F) as u64) << shift`.
abbrev pub or_group : ℕ → ℕ → ℕ → ℕ
or_group result b shift = bit_or result (bit_and b 0x7F * 2 ^ shift % u64_mod)

-- The first argument counts the rounds left of `for _ in 0..10`.
unfoldable pub read_loop : ℕ → ℕ → ℕ → ByteReader → Result (ℕ × ByteReader)
read_loop zero result shift r = err (deserialize "uleb128 too long")
read_loop (suc rounds) result shift r = do
  (b, r') ← read_byte r
  let result' = or_group result b shift
  let more = read_loop rounds result' (shift + 7) r'
  if bit_and b 0x80 == 0 then ok (result', r') else more

unfoldable pub read_uleb128 : ByteReader → Result (ℕ × ByteReader)
unfolding read_loop
read_uleb128 r = read_loop 10 0 0 r

-- `while v >= 0x80 { v >>= 7; n += 1; }`
size_loop : (v n : ℕ) → Acc ◌<◌ v → ℕ
size_loop v n (Acc.intro _ smaller) =
    dite (dec_lt v 0x80) (λ _. n)
      (λ big. size_loop (v / 128) (n + 1) (smaller _ (shift_lt_of_ge v big)))

unfoldable pub uleb128_size : ℕ → ℕ
unfolding size_loop lt_wf dec_lt
uleb128_size v = size_loop v 1 (lt_wf.apply v)
