-- ===== src/Serialize/Varint/RoundTrip.antt =====
-- Reading back what was written.
use native.Mathlib.Nat.{div-add-mod}
use native.Mathlib.Numerals.{towards_suc}
use sedsprintf_rs.Prelude.{
  ℕ, zero, suc, ◌+◌, ◌*◌, ◌/◌, ◌%◌, ◌^◌, ◌<◌, ◌≡◌, ap, bit_and, List, [], ◌∷◌, ◌++◌, append_assoc,
  IsU64, u64_mod, arith, low_seven, top_bit, bit_or_shifted,
}
use sedsprintf_rs.Error.{ok}
use sedsprintf_rs.Serialize.Reader.Laws.{at, read_byte-at}
use sedsprintf_rs.Serialize.Varint.{or_group, read_loop, read_uleb128, write_uleb128}
use sedsprintf_rs.Serialize.Varint.Encoding.{uleb128, write_uleb128-uleb128}

or_group_lem :
    (acc b shift : ℕ)
    → b < 256
    → acc < 2 ^ shift
    → acc + b % 128 * 2 ^ shift < u64_mod
    → or_group acc b shift ≡ acc + b % 128 * 2 ^ shift
or_group_lem acc b shift hb ha fits =
    ground (arith, low_seven b, bit_or_shifted shift acc (b % 128))

last_round :
    (rounds acc shift w : ℕ) (passed rest : List ℕ)
    → w < 128
    → acc < 2 ^ shift
    → IsU64 (acc + w * 2 ^ shift)
    → read_loop (suc rounds) acc shift (at passed (w ∷ rest))
      ≡ ok (acc + w * 2 ^ shift, at (passed ++ w ∷ []) rest)
unfolding read_loop
last_round rounds acc shift w passed rest hw ha fits =
    rw (read_byte-at passed w rest) (ground (arith, or_group_lem acc w shift, top_bit w))

inner_round :
    (rounds acc shift g : ℕ) (passed rest : List ℕ)
    → g < 128
    → acc < 2 ^ shift
    → IsU64 (acc + g * 2 ^ shift)
    → read_loop (suc rounds) acc shift (at passed ((g + 128) ∷ rest))
      ≡ read_loop rounds (acc + g * 2 ^ shift) (shift + 7) (at (passed ++ (g + 128) ∷ []) rest)
unfolding read_loop
inner_round rounds acc shift g passed rest hg ha fits =
    let marked : bit_and (g + 128) 0x80 ≡ 128 = omega (arith, top_bit (g + 128)) in
    let joined : or_group acc (g + 128) shift ≡ acc + g * 2 ^ shift =
      ground (arith, or_group_lem acc (g + 128) shift) in
    rw (read_byte-at passed (g + 128) rest, marked, joined)

pow_seven : (s : ℕ) → 2 ^ (s + 7) ≡ 128 * 2 ^ s
pow_seven s = simp towards_suc (omega arith)

split_low : (w s : ℕ) → w * 2 ^ s ≡ w % 128 * 2 ^ s + w / 128 * 2 ^ (s + 7)
split_low w s = omega (
  arith,
  ap (λ (t : ℕ). t * 2 ^ s) (div-add-mod w 128),
  ap (λ (t : ℕ). w / 128 * t) (pow_seven s),
)

below_next : (acc g s : ℕ) → acc < 2 ^ s → g < 128 → acc + g * 2 ^ s < 2 ^ (s + 7)
below_next acc g s h hg = grind (arith, pow_seven s)

read_loop-uleb128 :
    (k acc shift w : ℕ) (passed rest : List ℕ)
    → w < 128 ^ suc k
    → acc < 2 ^ shift
    → IsU64 (acc + w * 2 ^ shift)
    → read_loop (suc k) acc shift (at passed (uleb128 k w ++ rest))
      ≡ ok (acc + w * 2 ^ shift, at (passed ++ uleb128 k w) rest)
unfolding uleb128
read_loop-uleb128 zero acc shift w passed rest hw ha fits =
    last_round 0 acc shift w passed rest hw ha fits
read_loop-uleb128 (suc k) acc shift w passed rest hw ha fits =
    let byte = (w % 128 + 128) ∷ [] in
    ground (
      arith,
      last_round (suc k) acc shift w passed rest,
      inner_round (suc k) acc shift (w % 128) passed (uleb128 k (w / 128) ++ rest),
      split_low w shift,
      below_next acc (w % 128) shift,
      read_loop-uleb128 k (acc + w % 128 * 2 ^ shift) (shift + 7) (w / 128) (passed ++ byte) rest
          (omega arith),
      append_assoc passed byte (uleb128 k (w / 128)),
    )

pub read_uleb128-at :
    (v : ℕ) (passed rest : List ℕ)
    → IsU64 v
    → read_uleb128 (at passed (uleb128 9 v ++ rest)) ≡ ok (v, at (passed ++ uleb128 9 v) rest)
unfolding read_uleb128
read_uleb128-at v passed rest h = ground (arith, read_loop-uleb128 9 0 0 v passed rest)

-- Reading a `u64` that `write_uleb128` wrote gives it back, and the reader stands right behind it,
-- whatever comes before and after.
pub read_uleb128-write_uleb128 :
    (v : ℕ) (passed rest : List ℕ)
    → IsU64 v
    → read_uleb128 (at passed (write_uleb128 v [] ++ rest))
      ≡ ok (v, at (passed ++ write_uleb128 v []) rest)
read_uleb128-write_uleb128 v passed rest h =
    rw (write_uleb128-uleb128 v [] h) (read_uleb128-at v passed rest h)
