-- ===== src/Prelude/Sorted.antt =====
-- A property of all elements of a list, and lists in descending order of a measure.
use Prim.Native.Nat.{ℕ, zero, suc, ◌≤◌}
use mathlib.Core.List.{List, [], ◌∷◌, ◌++◌}
use sedsprintf_rs.Prelude.Lists.{take, drop}

module _ {ℓ κ} {A : Type ℓ} (P : A → Type κ) where
  abbrev pub All : List A → Type κ
  All [] = Unit
  All (x ∷ xs) = P x × All xs

  pub All-append : (xs ys : List A) → All xs → All ys → All (xs ++ ys)
  All-append [] ys a b = b
  All-append (x ∷ xs) ys (p, a) b = (p, All-append xs ys a b)

  pub append-All : (xs ys : List A) → All (xs ++ ys) → All xs × All ys
  append-All [] ys a = (tt, a)
  append-All (x ∷ xs) ys (p, a) = let (l, r) = append-All xs ys a in ((p, l), r)

  pub All-take : (n : ℕ) (xs : List A) → All xs → All (take n xs)
  All-take zero xs a = tt
  All-take (suc n) [] a = tt
  All-take (suc n) (x ∷ xs) (p, a) = (p, All-take n xs a)

  pub All-drop : (n : ℕ) (xs : List A) → All xs → All (drop n xs)
  All-drop zero xs a = a
  All-drop (suc n) [] a = tt
  All-drop (suc n) (x ∷ xs) (p, a) = All-drop n xs a

pub All-map {ℓ κ μ} :
    {A : Type ℓ} (P : A → Type κ) (Q : A → Type μ) (xs : List A)
    → ((a : A) → P a → Q a)
    → All P xs
    → All Q xs
All-map P Q [] f a = tt
All-map P Q (x ∷ xs) f (p, a) = (f x p, All-map P Q xs f a)

-- No element has a smaller measure than one behind it.
module _ {ℓ} {A : Type ℓ} (measure : A → ℕ) where
  abbrev pub Descending : List A → Type 0
  Descending [] = Unit
  Descending (x ∷ xs) = All (λ y. measure y ≤ measure x) xs × Descending xs

  pub Descending-take : (n : ℕ) (xs : List A) → Descending xs → Descending (take n xs)
  Descending-take zero xs d = tt
  Descending-take (suc n) [] d = tt
  Descending-take (suc n) (x ∷ xs) (a, d) = (All-take _ n xs a, Descending-take n xs d)

  pub Descending-drop : (n : ℕ) (xs : List A) → Descending xs → Descending (drop n xs)
  Descending-drop zero xs d = d
  Descending-drop (suc n) [] d = tt
  Descending-drop (suc n) (x ∷ xs) (a, d) = Descending-drop n xs d

  pub Descending-tail : (v : A) (xs : List A) → Descending (v ∷ xs) → Descending xs
  Descending-tail v xs (a, d) = d

  -- An element between those of at least its measure and those of at most its measure.
  pub Descending-insert :
      (hi lo : List A) (v : A)
      → Descending (hi ++ lo)
      → All (λ w. measure v ≤ measure w) hi
      → All (λ w. measure w ≤ measure v) lo
      → Descending (hi ++ (v ∷ lo))
  Descending-insert [] lo v d h l = (l, d)
  Descending-insert (x ∷ hi) lo v (a, d) (p, h) l =
      let (below_hi, below_lo) = append-All (λ y. measure y ≤ measure x) hi lo a in
      (All-append _ hi (v ∷ lo) below_hi (p, below_lo), Descending-insert hi lo v d h l)

  pub Descending-prefix : (xs ys : List A) → Descending (xs ++ ys) → Descending xs
  Descending-prefix [] ys d = tt
  Descending-prefix (x ∷ xs) ys (a, d) =
      ((append-All (λ y. measure y ≤ measure x) xs ys a).0, Descending-prefix xs ys d)
