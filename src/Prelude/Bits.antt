-- ===== src/Prelude/Bits.antt =====
-- Bit operations: the digit recursion at variables, and tables over one byte.
use Prim.Native.Nat.{bit_and-bitwise}
use Prim.Native.Nat.{
  ℕ, zero, suc, ◌+◌, ◌*◌, ◌/◌, ◌%◌, ◌^◌, ◌≤◌, ◌<◌, min, max, bit_and, bit_or, digits,
  bit_or-bitwise,
}
use mathlib.Core.Path.{◌≡◌, refl, ap}
use mathlib.Core.Bool.{Bool, true, false, ◌&&◌}
use native.Mathlib.Omega.{arith}
use native.Mathlib.Nat.{pow-suc}
use sedsprintf_rs.Prelude.Tests.{◌==◌, ltb, ==_iff, ltb→lt, if◌then◌else◌}

-- A property of every number below a bound, by evaluation.
pub holds_below : ℕ → (ℕ → Bool) → Bool
holds_below zero test = true
holds_below (suc bound) test = test bound && holds_below bound test

pub holds_below_at :
    (bound : ℕ) (test : ℕ → Bool) (n : ℕ)
    → n < bound
    → holds_below bound test ≡ true
    → test n ≡ true
unfolding holds_below
holds_below_at zero test n below passed = absurd (omega arith)
holds_below_at (suc bound) test n below passed = ground (arith, holds_below_at bound test n)

-- The recursion over binary digits, for any operation on a digit: with as much fuel as its first
-- number it does not depend on the fuel.
module _ (last : ℕ → ℕ) (op : ℕ → ℕ → ℕ) where
  enough_fuel : (k l x y : ℕ) → x ≤ k → x ≤ l → digits last op k x y ≡ digits last op l x y
  enough_fuel zero zero x y below_k below_l = refl
  enough_fuel (suc k) zero zero y below_k below_l = refl
  enough_fuel zero (suc l) zero y below_k below_l = refl
  enough_fuel (suc k) zero (suc x) y below_k below_l = absurd (omega arith)
  enough_fuel zero (suc l) (suc x) y below_k below_l = absurd (omega arith)
  enough_fuel (suc k) (suc l) zero y below_k below_l = refl
  enough_fuel (suc k) (suc l) (suc x) y below_k below_l =
      let half = enough_fuel k l (suc x / 2) (y / 2) (omega arith) (omega arith) in
      omega (arith, half)

zero-bit_or : (b : ℕ) → bit_or 0 b ≡ b
zero-bit_or b = bit_or-bitwise 0 b

bit_or_step : (a b : ℕ) → bit_or a b ≡ bit_or (a / 2) (b / 2) * 2 + max (a % 2) (b % 2)
bit_or_step zero b = omega (arith, zero-bit_or b, zero-bit_or (b / 2))
bit_or_step (suc a) b = omega (
  arith,
  bit_or-bitwise (suc a) b,
  bit_or-bitwise (suc a / 2) (b / 2),
  enough_fuel (λ d. d) max a (suc a / 2) (suc a / 2) (b / 2) (omega arith) (omega arith),
)

mul-pow-suc : (x s : ℕ) → x * 2 ^ suc s ≡ 2 * (x * 2 ^ s)
mul-pow-suc x s = omega (arith, ap (λ (t : ℕ). x * t) (pow-suc 2 s))

-- `acc | (x << s)` is a sum when `acc` has no bit at `s` or above.
pub bit_or_shifted : (s acc x : ℕ) → acc < 2 ^ s → bit_or acc (x * 2 ^ s) ≡ acc + x * 2 ^ s
bit_or_shifted zero acc x h = ground (arith, zero-bit_or (x * 1))
bit_or_shifted (suc s) acc x h = ground (
  arith,
  bit_or_step acc (x * 2 ^ suc s),
  mul-pow-suc x s,
  pow-suc 2 s,
  bit_or_shifted s (acc / 2) x (omega arith),
)

low_seven_table : holds_below 256 (λ b. bit_and b 0x7F == b % 128) ≡ true
unfolding holds_below
low_seven_table = refl

pub low_seven : (b : ℕ) → b < 256 → bit_and b 0x7F ≡ b % 128
low_seven b h = (==_iff _ _).0 (holds_below_at 256 _ b h low_seven_table)

top_bit_table : holds_below 256 (λ b. bit_and b 0x80 == b / 128 * 128) ≡ true
unfolding holds_below
top_bit_table = refl

pub top_bit : (b : ℕ) → b < 256 → bit_and b 0x80 ≡ b / 128 * 128
top_bit b h = (==_iff _ _).0 (holds_below_at 256 _ b h top_bit_table)

set_top_table : holds_below 128 (λ b. bit_or b 0x80 == b + 128) ≡ true
unfolding holds_below
set_top_table = refl

pub set_top : (b : ℕ) → b < 128 → bit_or b 0x80 ≡ b + 128
set_top b h = (==_iff _ _).0 (holds_below_at 128 _ b h set_top_table)

-- Bit `i` of a byte, `(x >> i) & 1`.
abbrev pub bit_at : ℕ → ℕ → ℕ
bit_at x i = bit_and (x / 2 ^ i) 1

bit_set_table :
    holds_below 256 (λ x. holds_below 8 (λ i. holds_below 8 (λ j.
      bit_at (bit_or x (2 ^ i)) j == (if i == j then 1 else bit_at x j)
      && ltb (bit_or x (2 ^ i)) 256)))
    ≡ true
unfolding holds_below
bit_set_table = refl

and_left : (a b : Bool) → (a && b) ≡ true → (a ≡ true) × (b ≡ true)
and_left true b h = (refl, h)
and_left false b h = cc

pub bit_set :
    (x i j : ℕ)
    → x < 256
    → i < 8
    → j < 8
    → (bit_at (bit_or x (2 ^ i)) j ≡ (if i == j then 1 else bit_at x j)) × (bit_or x (2 ^ i) < 256)
bit_set x i j hx hi hj =
    let row =
      holds_below_at 8 _ j hj (holds_below_at 8 _ i hi (holds_below_at 256 _ x hx bit_set_table)) in
    let (value, small) = and_left _ _ row in ((==_iff _ _).0 value, ltb→lt _ _ small)

pub bit_and_step : (x y : ℕ) → bit_and x y ≡ bit_and (x / 2) (y / 2) * 2 + min (x % 2) (y % 2)
bit_and_step zero y = omega (arith, bit_and-bitwise 0 y, bit_and-bitwise 0 (y / 2))
bit_and_step (suc x) y =
    let half =
      enough_fuel (λ d. zero) min x (suc x / 2) (suc x / 2) (y / 2) (omega arith) (omega arith) in
    omega (arith, half, bit_and-bitwise (suc x / 2) (y / 2), bit_and-bitwise (suc x) y)

-- Nothing is common with 0, in as many steps as there are.
no_common_bit : (k x : ℕ) → x ≤ k → bit_and x 0 ≡ 0
no_common_bit k zero below = refl
no_common_bit zero (suc x) below = absurd (omega arith)
no_common_bit (suc k) (suc x) below =
    let half = no_common_bit k (suc x / 2) (omega arith) in
    omega (arith, half, bit_and_step (suc x) 0)

pub bit_and-one : (a : ℕ) → bit_and a 1 ≡ a % 2
bit_and-one a =
    let rest = no_common_bit (a / 2) (a / 2) (omega arith) in omega (arith, rest, bit_and_step a 1)

-- Three more steps than the mask 7 for the mask 15, and so on up to 0x7F.
bit_and_mask3 : (a : ℕ) → bit_and a 7 ≡ a % 8
bit_and_mask3 a =
    let low = bit_and-one (a / 2 / 2) in
    omega (arith, low, bit_and_step (a / 2) 3, bit_and_step a 7)

pub bit_and_mask7 : (a : ℕ) → bit_and a 0x7F ≡ a % 128
bit_and_mask7 a = omega (
  arith,
  bit_and_step a 127,
  bit_and_step (a / 2) 63,
  bit_and_step (a / 2 / 2) 31,
  bit_and_step (a / 2 / 2 / 2) 15,
  bit_and_mask3 (a / 2 / 2 / 2 / 2),
)

-- `|` of two words of `s` bits has `s` bits.
pub bit_or-lt : (s a b : ℕ) → a < 2 ^ s → b < 2 ^ s → bit_or a b < 2 ^ s
bit_or-lt zero zero zero ha hb = omega arith
bit_or-lt zero zero (suc b) ha hb = absurd (omega arith)
bit_or-lt zero (suc a) b ha hb = absurd (omega arith)
bit_or-lt (suc s) a b ha hb = omega (
  arith,
  bit_or_step a b,
  pow-suc 2 s,
  bit_or-lt s (a / 2) (b / 2) (omega (arith, pow-suc 2 s)) (omega (arith, pow-suc 2 s)),
)
