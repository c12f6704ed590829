-- ===== src/Serialize/Bitmap/Count.antt =====
-- The NEP byte: the population count of a bitmap is the number of endpoints that it expands to.
use native.Mathlib.Nat.{add-zero, add_assoc}
use sedsprintf_rs.Prelude.{
  ℕ, zero, suc, ◌+◌, ◌-◌, ◌*◌, ◌/◌, ◌%◌, ◌^◌, ◌≤◌, ◌<◌, ◌≡◌, refl, ap, Bool, true, false, List, [],
  ◌∷◌, length, replicate, bit_at, bit_and-one, arith,
}
use sedsprintf_rs.Schema.{Schema}
use sedsprintf_rs.Serialize.Bitmap.{
  get_bit, build_loop, count_ones, bitmap_popcount, ep_bitmap_bits, ep_bitmap_bytes,
  build_endpoint_bitmap,
}
use sedsprintf_rs.Serialize.Bitmap.Bits.{AllBelow, contains, build_loop-contains, build_loop_shape}
use sedsprintf_rs.Serialize.Bitmap.RoundTrip.{marked, marked_ext}

abbrev as_number : Bool → ℕ
as_number true = 1
as_number false = 0

marked_step :
    (n i : ℕ) (p : ℕ → Bool)
    → length (marked (suc n) i p) ≡ as_number (p i) + length (marked n (i + 1) p)
unfolding marked
marked_step n i p = ground arith

marked_split :
    (m n i k l : ℕ) (p : ℕ → Bool)
    → k ≡ m + n
    → l ≡ i + m
    → length (marked k i p) ≡ length (marked m i p) + length (marked n l p)
marked_split zero n i k l p e f =
    let k≡n : k ≡ n = omega arith in
    let l≡i : l ≡ i = omega arith in rw (k≡n, l≡i) (unfold marked in omega arith)
marked_split (suc m) n i zero l p e f = absurd (omega arith)
marked_split (suc m) n i (suc k) l p e f = omega (
  arith,
  marked_step k i p,
  marked_step m i p,
  marked_split m n (i + 1) k l p (omega arith) (omega arith),
)

marked_shift :
    (n i j : ℕ) (p q : ℕ → Bool)
    → ((d : ℕ) → p (i + d) ≡ q (j + d))
    → length (marked n i p) ≡ length (marked n j q)
marked_shift zero i j p q h = unfold marked in refl
marked_shift (suc n) i j p q h = omega (
  arith,
  marked_step n i p,
  marked_step n j q,
  ap as_number (rw (add-zero, add-zero) at (h 0)),
  marked_shift n (i + 1) (j + 1) p q (λ d. rw (add_assoc i 1 d, add_assoc j 1 d) (h (1 + d))),
)

bit_number : (b : ℕ) (bm : List ℕ) (i : ℕ) → i < 8 → as_number (get_bit (b ∷ bm) i) ≡ bit_at b i
unfolding get_bit
bit_number b bm i h = ground (arith, bit_and-one (b / 2 ^ i))

no_more : (p : ℕ → Bool) → length (marked 0 8 p) ≡ 0
unfolding marked
no_more p = refl

first_byte : (b : ℕ) (bm : List ℕ) → length (marked 8 0 (get_bit (b ∷ bm))) ≡ count_ones b
unfolding count_ones
first_byte b bm =
    let p = get_bit (b ∷ bm) in
    omega (
      arith,
      marked_step 7 0 p,
      marked_step 6 1 p,
      marked_step 5 2 p,
      marked_step 4 3 p,
      marked_step 3 4 p,
      marked_step 2 5 p,
      marked_step 1 6 p,
      marked_step 0 7 p,
      no_more p,
      bit_number b bm 0 (omega arith),
      bit_number b bm 1 (omega arith),
      bit_number b bm 2 (omega arith),
      bit_number b bm 3 (omega arith),
      bit_number b bm 4 (omega arith),
      bit_number b bm 5 (omega arith),
      bit_number b bm 6 (omega arith),
      bit_number b bm 7 (omega arith),
    )

get_bit-later : (b : ℕ) (bm : List ℕ) (d : ℕ) → get_bit (b ∷ bm) (8 + d) ≡ get_bit bm (0 + d)
unfolding get_bit
get_bit-later b bm d =
    let byte : (8 + d) / 8 ≡ suc ((0 + d) / 8) = omega arith in
    let bit : (8 + d) % 8 ≡ (0 + d) % 8 = omega arith in rw (byte, bit)

pub popcount-marked :
    (bm : List ℕ) (n : ℕ)
    → n ≡ 8 * length bm
    → length (marked n 0 (get_bit bm)) ≡ bitmap_popcount bm
unfolding bitmap_popcount
popcount-marked [] zero e = unfold marked in refl
popcount-marked [] (suc n) e = absurd (omega arith)
popcount-marked (b ∷ bm) n e = omega (
  arith,
  marked_split 8 (8 * length bm) 0 n 8 (get_bit (b ∷ bm)) (omega arith) (omega arith),
  first_byte b bm,
  marked_shift (8 * length bm) 8 0 (get_bit (b ∷ bm)) (get_bit bm) (get_bit-later b bm),
  popcount-marked bm (8 * length bm) refl,
)

none_left : (n i : ℕ) (p : ℕ → Bool) → ((j : ℕ) → i ≤ j → p j ≡ false) → length (marked n i p) ≡ 0
unfolding marked
none_left zero i p h = refl
none_left (suc n) i p h = rw (h i (omega arith)) (none_left n (i + 1) p (λ j hj. h j (omega arith)))

contains_above : (bits j : ℕ) (eps : List ℕ) → AllBelow bits eps → bits ≤ j → contains eps j ≡ false
contains_above bits j [] all h = refl
contains_above bits j (x ∷ eps) all h = ground (arith, contains_above bits j eps all.1 h)

-- The population count of the bitmap built from valid endpoints is the number of different ones,
-- the same number that expanding the bitmap lists.
pub popcount-build :
    (s : Schema) (eps : List ℕ)
    → AllBelow (ep_bitmap_bits s) eps
    → bitmap_popcount (build_endpoint_bitmap s eps)
      ≡ length (marked (ep_bitmap_bits s) 0 (contains eps))
unfolding build_endpoint_bitmap
popcount-build s eps all =
    let bits = ep_bitmap_bits s in
    let bytes = ep_bitmap_bytes s in
    let bm = build_loop bits (replicate bytes 0) eps in
    let size : length bm ≡ bytes = (build_loop_shape bits bytes eps).1 in
    let same : (n i : ℕ) → marked n i (get_bit bm) ≡ marked n i (contains eps) =
      λ n i. marked_ext n i _ _ (λ j _. build_loop-contains bits bytes eps j (omega arith) all) in
    omega (
      arith,
      popcount-marked bm (8 * length bm) refl,
      ap length (same (8 * length bm) 0),
      marked_split bits (8 * length bm - bits) 0 (8 * length bm) bits (contains eps) (omega arith)
          (omega arith),
      none_left (8 * length bm - bits) bits (contains eps) (λ j h. contains_above bits j eps all h),
    )
