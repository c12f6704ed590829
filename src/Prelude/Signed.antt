-- ===== src/Prelude/Signed.antt =====
-- Machine integers with a sign: wrap-around, saturation, and division that rounds toward zero.
use Prim.Native.Nat.{ℕ, zero, suc, ◌+◌, ◌-◌, ◌*◌, ◌/◌, ◌%◌, ◌^◌, ◌≤◌, ◌<◌, min}
use mathlib.Core.Path.{◌≡◌, refl, sym, ◌∙◌}
use native.Mathlib.Omega.{arith}
use native.Mathlib.Nat.{mod-eq_of_lt, zero-div}
use sedsprintf_rs.Prelude.Tests.{ltb, if◌then◌else◌}
use sedsprintf_rs.Prelude.Int.{ℤ, pos, negsuc, pos_part, neg_part, ◌+ℤ◌, ◌-ℤ◌, ◌*ℤ◌}

-- The number of a bit pattern of w bits in two's complement.
abbrev pub of_bits : ℕ → ℕ → ℤ
of_bits modulus r = if ltb (r + r) modulus then pos r else negsuc (modulus - r - 1)

-- `as i32` and the wrap-around of `i32`, at the modulus 2 ^ 32; likewise for `i64`.
unfoldable pub wrap_signed : ℕ → ℤ → ℤ
wrap_signed modulus (pos n) = of_bits modulus (n % modulus)
wrap_signed modulus (negsuc n) = of_bits modulus (modulus - 1 - n % modulus)

abbrev pub negate : ℕ → ℤ
negate zero = pos 0
negate (suc n) = negsuc n

-- `/` of the source, by a positive number.
unfoldable pub quot : ℤ → ℕ → ℤ
quot (pos n) k = pos (n / k)
quot (negsuc n) k = negate (suc n / k)

-- The largest and the smallest `i128`.
abbrev pub i128_max : ℕ
i128_max = 2 ^ 127 - 1

unfoldable pub clamp_i128 : ℤ → ℤ
clamp_i128 (pos n) = pos (min n i128_max)
clamp_i128 (negsuc n) = negsuc (min n i128_max)

pub add-pos : (a b : ℕ) → pos a +ℤ pos b ≡ pos (a + b)
unfolding ◌+ℤ◌
add-pos a b = ground arith

pub sub-pos : (a b : ℕ) → b ≤ a → pos a -ℤ pos b ≡ pos (a - b)
unfolding ◌-ℤ◌
sub-pos a b h = ground arith

pub mul-pos : (a b : ℕ) → pos a *ℤ pos b ≡ pos (a * b)
unfolding ◌*ℤ◌
mul-pos a b = ground arith

pub wrap_signed-pos : (modulus n : ℕ) → n + n < modulus → wrap_signed modulus (pos n) ≡ pos n
unfolding wrap_signed
wrap_signed-pos modulus n h =
    let small : n % modulus ≡ n = mod-eq_of_lt (omega (arith, h)) in rw small (ground (arith, h))

-- The `i128`s.
abbrev pub InI128 : ℤ → Type 0
InI128 a = (pos_part a ≤ i128_max) × (neg_part a ≤ suc i128_max)

pub clamp_same : (a : ℤ) → InI128 a → clamp_i128 a ≡ a
unfolding clamp_i128
clamp_same (pos n) (above, below) = ground arith
clamp_same (negsuc n) (above, below) = ground arith

pub clamp_InI128 : (a : ℤ) → InI128 (clamp_i128 a)
unfolding clamp_i128
clamp_InI128 (pos n) = (ground arith, ground arith)
clamp_InI128 (negsuc n) = (ground arith, ground arith)

pub negate_parts : (n : ℕ) → (pos_part (negate n) ≡ 0) × (neg_part (negate n) ≡ n)
negate_parts zero = (refl, refl)
negate_parts (suc n) = (refl, refl)

pub quot_parts :
    (a : ℤ) (k : ℕ)
    → (pos_part (quot a k) ≡ pos_part a / k) × (neg_part (quot a k) ≡ neg_part a / k)
unfolding quot
quot_parts (pos n) k = (refl, sym (zero-div k))
quot_parts (negsuc n) k =
    let (none_up, down) = negate_parts (suc n / k) in (none_up ∙ sym (zero-div k), down)

pub wrap_signed-negsuc :
    (modulus n : ℕ) → n + n + 2 ≤ modulus → wrap_signed modulus (negsuc n) ≡ negsuc n
unfolding wrap_signed
wrap_signed-negsuc modulus n h =
    let small : n % modulus ≡ n = mod-eq_of_lt (omega (arith, h)) in
    let back : modulus - (modulus - 1 - n) - 1 ≡ n = omega (arith, h) in
    rw small (ground (arith, h, back))

-- A number in the range of the type stays.
pub wrap_signed_same :
    (modulus : ℕ) (a : ℤ)
    → pos_part a + pos_part a < modulus
    → neg_part a + neg_part a ≤ modulus
    → wrap_signed modulus a ≡ a
wrap_signed_same modulus (pos n) above below = wrap_signed-pos modulus n above
wrap_signed_same modulus (negsuc n) above below =
    wrap_signed-negsuc modulus n (omega (arith, below))
