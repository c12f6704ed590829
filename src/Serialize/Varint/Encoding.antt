-- ===== src/Serialize/Varint/Encoding.antt =====
-- What `write_uleb128` writes and `uleb128_size` counts, in plain arithmetic.
use mathlib.Core.WellFounded.{Acc}
use sedsprintf_rs.Prelude.{
  ℕ, zero, suc, ◌+◌, ◌/◌, ◌%◌, ◌^◌, ◌≤◌, ◌<◌, ◌≡◌, true, false, List, [], ◌∷◌, ◌++◌, append_assoc,
  ltb, length, IsU64, arith, lt_wf, set_top, bit_and_mask7,
}
use sedsprintf_rs.Serialize.Varint.{write_loop, write_uleb128, size_loop, uleb128_size}

-- The groups of `v`, for `v` below 128 ^ (k + 1).
unfoldable pub uleb128 : ℕ → ℕ → List ℕ
uleb128 zero v = v ∷ []
uleb128 (suc k) v = elim (ltb v 128) [
  | true ↦ v ∷ []
  | false ↦ (v % 128 + 128) ∷ uleb128 k (v / 128)
]

write_loop-uleb128 :
    (k v : ℕ) (out : List ℕ) (w : Acc ◌<◌ v)
    → v < 128 ^ suc k
    → write_loop v out w ≡ out ++ uleb128 k v
unfolding write_loop uleb128
write_loop-uleb128 zero v out (Acc.intro _ smaller) h = ground (arith, bit_and_mask7 v)
write_loop-uleb128 (suc k) v out (Acc.intro _ smaller) h =
    let byte = (v % 128 + 128) ∷ [] in
    grind (
      arith,
      bit_and_mask7 v,
      set_top (v % 128),
      λ (w : Acc ◌<◌ (v / 128)). write_loop-uleb128 k (v / 128) (out ++ byte) w (omega arith),
      append_assoc out byte (uleb128 k (v / 128)),
    )

-- `write_uleb128` appends the groups of a `u64` to the output, and changes nothing else of it.
pub write_uleb128-uleb128 :
    (v : ℕ) (out : List ℕ) → IsU64 v → write_uleb128 v out ≡ out ++ uleb128 9 v
unfolding write_uleb128
write_uleb128-uleb128 v out h = write_loop-uleb128 9 v out (lt_wf.apply v) (omega arith)

size_loop-length :
    (k v n : ℕ) (w : Acc ◌<◌ v) → v < 128 ^ suc k → size_loop v n w + 1 ≡ n + length (uleb128 k v)
unfolding size_loop uleb128
size_loop-length zero v n (Acc.intro _ smaller) h = ground arith
size_loop-length (suc k) v n (Acc.intro _ smaller) h =
    grind (arith, λ (w : Acc ◌<◌ (v / 128)). size_loop-length k (v / 128) (n + 1) w (omega arith))

pub uleb128_size-length : (v : ℕ) → IsU64 v → uleb128_size v ≡ length (uleb128 9 v)
unfolding uleb128_size
uleb128_size-length v h = omega (arith, size_loop-length 9 v 1 (lt_wf.apply v) (omega arith))

pub length-uleb128 : (k v : ℕ) → (1 ≤ length (uleb128 k v)) × (length (uleb128 k v) ≤ k + 1)
unfolding uleb128
length-uleb128 zero v = omega arith
length-uleb128 (suc k) v = ground (arith, length-uleb128 k (v / 128))
