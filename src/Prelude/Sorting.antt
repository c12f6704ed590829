-- ===== src/Prelude/Sorting.antt =====
-- `sort_by`, which is stable, and `dedup_by` on lists, and what they keep.
use Prim.Native.Nat.{suc}
use mathlib.Core.Path.{◌≡◌, refl, ap, ◌∙◌}
use mathlib.Core.Logic.{inl, inr}
use mathlib.Core.Bool.{Bool, true, false}
use mathlib.Core.List.{List, [], ◌∷◌, Memᴰ}
use sedsprintf_rs.Prelude.Tests.{if◌then◌else◌, Bool-cases}
use sedsprintf_rs.Prelude.Lists.{length}
use sedsprintf_rs.Prelude.Sorted.{All}

module _ {A : Type 0} (before : A → A → Bool) where
  -- In front of the first element that does not come before it.
  unfoldable pub place : A → List A → List A
  place x [] = x ∷ []
  place x (y ∷ ys) = let rest = place x ys in if before y x then y ∷ rest else x ∷ y ∷ ys

  unfoldable pub sort : List A → List A
  sort [] = []
  sort (x ∷ xs) = place x (sort xs)

  -- Each element comes before all that follow it.
  abbrev pub StrictlyUp : List A → Type 0
  StrictlyUp [] = Unit
  StrictlyUp (x ∷ xs) = All (λ y. before x y ≡ true) xs × StrictlyUp xs

  module _ {κ} (P : A → Type κ) where
    pub All-place : (x : A) (xs : List A) → P x → All P xs → All P (place x xs)
    unfolding place
    All-place x [] p a = (p, tt)
    All-place x (y ∷ ys) p (q, a) =
        let rest = All-place x ys p a in
        elim (Bool-cases (before y x)) [ inl e ↦ rw e (q, rest) | inr e ↦ rw e (p, (q, a)) ]

    pub All-sort : (xs : List A) → All P xs → All P (sort xs)
    unfolding sort
    All-sort [] a = tt
    All-sort (x ∷ xs) (p, a) = All-place x (sort xs) p (All-sort xs a)

  Memᴰ-place : (z x : A) (xs : List A) → Memᴰ z (x ∷ xs) → Memᴰ z (place x xs)
  unfolding place
  Memᴰ-place z x [] m = m
  Memᴰ-place z x (y ∷ ys) m = elim (Bool-cases (before y x)) [
    | inr e ↦ rw e m
    | inl e ↦ rw e (elim m [
      | Memᴰ.head same ↦ Memᴰ.tail (Memᴰ-place z x ys (Memᴰ.head same))
      | Memᴰ.tail (Memᴰ.head same) ↦ Memᴰ.head same
      | Memᴰ.tail (Memᴰ.tail later) ↦ Memᴰ.tail (Memᴰ-place z x ys (Memᴰ.tail later))
    ])
  ]

  pub Memᴰ-sort : (z : A) (xs : List A) → Memᴰ z xs → Memᴰ z (sort xs)
  unfolding sort
  Memᴰ-sort z [] m = m
  Memᴰ-sort z (x ∷ xs) (Memᴰ.head same) = Memᴰ-place z x (sort xs) (Memᴰ.head same)
  Memᴰ-sort z (x ∷ xs) (Memᴰ.tail later) =
      Memᴰ-place z x (sort xs) (Memᴰ.tail (Memᴰ-sort z xs later))

  length-place : (x : A) (xs : List A) → length (place x xs) ≡ suc (length xs)
  unfolding place
  length-place x [] = refl
  length-place x (y ∷ ys) =
      let rest = length-place x ys in
      elim (Bool-cases (before y x)) [ inl e ↦ rw (e, rest) refl | inr e ↦ rw e refl ]

  pub length-sort : (xs : List A) → length (sort xs) ≡ length xs
  unfolding sort
  length-sort [] = refl
  length-sort (x ∷ xs) = length-place x (sort xs) ∙ ap suc (length-sort xs)

  module _ (asymm : (x y : A) → before x y ≡ true → before y x ≡ false) where
    place_first : (x : A) (xs : List A) → All (λ y. before x y ≡ true) xs → place x xs ≡ x ∷ xs
    unfolding place
    place_first x [] a = refl
    place_first x (y ∷ ys) (p, a) = rw (asymm x y p) refl

    -- A list in strict order is sorted already.
    pub sort_same : (xs : List A) → StrictlyUp xs → sort xs ≡ xs
    unfolding sort
    sort_same [] a = refl
    sort_same (x ∷ xs) (p, a) = rw (sort_same xs a) (place_first x xs p)

    module _
        (trans : (a b c : A) → before b a ≡ false → before c b ≡ false → before c a ≡ false) where
      -- What no element comes before.
      abbrev pub Least : A → List A → Type 0
      Least a xs = All (λ x. before x a ≡ false) xs

      before_irrefl : (x : A) → before x x ≡ false
      before_irrefl x = elim (Bool-cases (before x x)) [ inl e ↦ asymm x x e | inr e ↦ e ]

      Least-weaken : (a b : A) (xs : List A) → before b a ≡ false → Least b xs → Least a xs
      Least-weaken a b [] h l = tt
      Least-weaken a b (x ∷ xs) h (p, l) = (trans a b x h p, Least-weaken a b xs h l)

      -- The first of a sorted list is least.
      abbrev HeadLeast : List A → Type 0
      HeadLeast [] = Unit
      HeadLeast (x ∷ xs) = Least x (x ∷ xs)

      place-HeadLeast : (x : A) (xs : List A) → HeadLeast xs → HeadLeast (place x xs)
      unfolding place
      place-HeadLeast x [] h = (before_irrefl x, tt)
      place-HeadLeast x (y ∷ ys) (p, h) = elim (Bool-cases (before y x)) [
        | inl e ↦ rw e (p, All-place (λ z. before z y ≡ false) x ys (asymm y x e) h)
        | inr e ↦ rw e (before_irrefl x, (e, Least-weaken x y ys e h))
      ]

      pub sort-HeadLeast : (xs : List A) → HeadLeast (sort xs)
      unfolding sort
      sort-HeadLeast [] = tt
      sort-HeadLeast (x ∷ xs) = place-HeadLeast x (sort xs) (sort-HeadLeast xs)

module _ {A : Type 0} (same : A → A → Bool) where
  -- An element that is the same as the one kept before it goes.
  unfoldable pub dedup_after : A → List A → List A
  dedup_after x [] = []
  dedup_after x (y ∷ ys) = if same y x then dedup_after x ys else y ∷ dedup_after y ys

  unfoldable pub dedup : List A → List A
  unfolding dedup_after
  dedup [] = []
  dedup (x ∷ xs) = x ∷ dedup_after x xs

-- A list in strict order has no neighbours that are the same.
module _ {A : Type 0} (before same : A → A → Bool)
    (other : (x y : A) → before x y ≡ true → same y x ≡ false) where
  dedup_after_same :
      (x : A) (xs : List A)
      → All (λ y. before x y ≡ true) xs
      → StrictlyUp before xs
      → dedup_after same x xs ≡ xs
  unfolding dedup_after
  dedup_after_same x [] p a = refl
  dedup_after_same x (y ∷ ys) (lt, p) (q, a) =
      rw (other x y lt) (ap (λ z. y ∷ z) (dedup_after_same y ys q a))

  pub dedup_same : (xs : List A) → StrictlyUp before xs → dedup same xs ≡ xs
  unfolding dedup
  dedup_same [] a = refl
  dedup_same (x ∷ xs) (p, a) = ap (λ z. x ∷ z) (dedup_after_same x xs p a)
