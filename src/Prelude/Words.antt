-- ===== src/Prelude/Words.antt =====
-- Machine words: an unsigned word of w bits is a number below 2 ^ w.
use Prim.Native.Nat.{ℕ, ◌+◌, ◌-◌, ◌*◌, ◌%◌, ◌^◌, ◌<◌, min}

abbrev pub u8_mod : ℕ
u8_mod = 2 ^ 8

abbrev pub u32_mod : ℕ
u32_mod = 2 ^ 32

abbrev pub u64_mod : ℕ
u64_mod = 2 ^ 64

abbrev pub IsU8 : ℕ → Type 0
IsU8 x = x < u8_mod

abbrev pub IsU32 : ℕ → Type 0
IsU32 x = x < u32_mod

abbrev pub IsU64 : ℕ → Type 0
IsU64 x = x < u64_mod

-- `u64::saturating_add`, and `usize::saturating_add` on a 64-bit target.
abbrev pub saturating_add : ℕ → ℕ → ℕ
saturating_add a b = min (a + b) (u64_mod - 1)

abbrev pub saturating_mul : ℕ → ℕ → ℕ
saturating_mul a b = min (a * b) (u64_mod - 1)

-- `saturating_sub` stops at 0, as `-` does here.
abbrev pub saturating_sub : ℕ → ℕ → ℕ
saturating_sub a b = a - b

-- `u32::wrapping_add`, `u64::wrapping_add`.
abbrev pub wrapping_add32 : ℕ → ℕ → ℕ
wrapping_add32 a b = (a + b) % u32_mod

abbrev pub wrapping_add64 : ℕ → ℕ → ℕ
wrapping_add64 a b = (a + b) % u64_mod

abbrev pub wrapping_sub64 : ℕ → ℕ → ℕ
wrapping_sub64 a b = (a + u64_mod - b) % u64_mod
