-- ===== src/Serialize/Bitmap/RoundTrip.antt =====
-- Expanding a bitmap lists its set bits in ascending order; on a built bitmap, the endpoints.
use mathlib.Core.Path.{subst}
use sedsprintf_rs.Prelude.{
  ℕ, zero, suc, ◌+◌, ◌≤◌, ◌<◌, ◌≡◌, refl, ap, ◌∙◌, Bool, false, List, [], ◌∷◌, ◌++◌, append-nil,
  append_assoc, length, ◌==◌, if◌then◌else◌, Bool-cases, inl, inr, arith,
}
use sedsprintf_rs.Error.{ok}
use sedsprintf_rs.Schema.{Schema, max_value_data_endpoint, try_enum_from_u32}
use sedsprintf_rs.Serialize.Bitmap.{
  get_bit, expand_loop, ep_bitmap_bits, ep_bitmap_bytes, build_endpoint_bitmap,
  expand_endpoint_bitmap,
}
use sedsprintf_rs.Serialize.Bitmap.Bits.{AllBelow, contains, build_loop-contains, build_loop_shape}

-- The numbers from `i` on, `n` of them, that satisfy the test.
unfoldable pub marked : ℕ → ℕ → (ℕ → Bool) → List ℕ
marked zero i p = []
marked (suc n) i p = let rest = marked n (i + 1) p in if p i then i ∷ rest else rest

pub marked_ext :
    (n i : ℕ) (p q : ℕ → Bool) → ((j : ℕ) → i ≤ j → p j ≡ q j) → marked n i p ≡ marked n i q
unfolding marked
marked_ext zero i p q h = refl
marked_ext (suc n) i p q h =
    rw (h i (omega arith), marked_ext n (i + 1) p q (λ j hj. h j (omega arith)))

expand_loop-marked :
    (max_value rounds idx : ℕ) (bm arr : List ℕ)
    → idx + rounds ≤ max_value + 1
    → expand_loop max_value rounds idx bm arr ≡ ok (arr ++ marked rounds idx (get_bit bm))
unfolding expand_loop marked try_enum_from_u32
expand_loop-marked max_value zero idx bm arr h = rw append-nil
expand_loop-marked max_value (suc rounds) idx bm arr h = ground (
  arith,
  expand_loop-marked max_value rounds (idx + 1) bm arr (omega arith),
  expand_loop-marked max_value rounds (idx + 1) bm (arr ++ idx ∷ []) (omega arith),
  append_assoc arr (idx ∷ []) (marked rounds (idx + 1) (get_bit bm)),
)

-- A bitmap of the right size expands to its set bits.
pub expand_endpoint_bitmap-marked :
    (s : Schema) (bm : List ℕ)
    → length bm ≡ ep_bitmap_bytes s
    → expand_endpoint_bitmap s bm ≡ ok (marked (ep_bitmap_bits s) 0 (get_bit bm))
unfolding expand_endpoint_bitmap
expand_endpoint_bitmap-marked s bm h =
    ground (arith, expand_loop-marked (max_value_data_endpoint s) (ep_bitmap_bits s) 0 bm [])

-- Strictly ascending, from `i` on.
abbrev pub Ascending : ℕ → List ℕ → Type 0
Ascending i [] = Unit {0}
Ascending i (x ∷ xs) = (i ≤ x) × Ascending (x + 1) xs

AllBelow-same : (m n : ℕ) (eps : List ℕ) → m ≡ n → AllBelow m eps → AllBelow n eps
AllBelow-same m n eps e h = subst (λ (k : ℕ). AllBelow k eps) e h

contains_below : (i k : ℕ) (eps : List ℕ) → Ascending k eps → i < k → contains eps i ≡ false
contains_below i k [] asc h = refl
contains_below i k (x ∷ eps) asc h = ground (arith, contains_below i (x + 1) eps asc.1)

-- Expanding the tests of an ascending list gives the list.
marked-contains :
    (n i : ℕ) (eps : List ℕ)
    → Ascending i eps
    → AllBelow (i + n) eps
    → marked n i (contains eps) ≡ eps
unfolding marked
marked-contains zero i [] asc all = refl
marked-contains zero i (x ∷ eps) asc all = absurd (omega arith)
marked-contains (suc n) i [] asc all = marked-contains n (i + 1) [] tt tt
marked-contains (suc n) i (x ∷ eps) asc all = elim (Bool-cases (x == i)) [
  | inl e ↦
      let same : marked n (i + 1) (contains (x ∷ eps)) ≡ eps =
        marked_ext n (i + 1) (contains (x ∷ eps)) (contains eps) (λ j hj. ground (arith, e))
        ∙ marked-contains n (i + 1) eps (ground (arith, asc))
            (AllBelow-same (i + suc n) (i + 1 + n) eps (omega arith) all.1) in
      rw same (ground (arith, e))
  | inr e ↦
      let later : marked n (i + 1) (contains (x ∷ eps)) ≡ x ∷ eps =
        marked-contains n (i + 1) (x ∷ eps) (ground (arith, e), asc.1)
          (AllBelow-same (i + suc n) (i + 1 + n) (x ∷ eps) (omega arith) all) in
      rw later (ground (arith, e, contains_below i (x + 1) eps asc.1))
]

-- Expanding the bitmap built from a list of endpoints lists each of them once, in ascending order.
pub expand-build_marked :
    (s : Schema) (eps : List ℕ)
    → AllBelow (ep_bitmap_bits s) eps
    → expand_endpoint_bitmap s (build_endpoint_bitmap s eps)
      ≡ ok (marked (ep_bitmap_bits s) 0 (contains eps))
unfolding build_endpoint_bitmap
expand-build_marked s eps all =
    expand_endpoint_bitmap-marked s _
      (build_loop_shape (ep_bitmap_bits s) (ep_bitmap_bytes s) eps).1
    ∙ ap ok (
        marked_ext (ep_bitmap_bits s) 0 _ (contains eps)
          λ j _. build_loop-contains (ep_bitmap_bits s) (ep_bitmap_bytes s) eps j (omega arith) all)

-- A list of endpoints that is strictly ascending already comes back as it was.
pub expand-build :
    (s : Schema) (eps : List ℕ)
    → Ascending 0 eps
    → AllBelow (ep_bitmap_bits s) eps
    → expand_endpoint_bitmap s (build_endpoint_bitmap s eps) ≡ ok eps
expand-build s eps asc all =
    expand-build_marked s eps all
    ∙ ap ok (
        marked-contains (ep_bitmap_bits s) 0 eps asc
          (AllBelow-same (ep_bitmap_bits s) (0 + ep_bitmap_bits s) eps (omega arith) all))
