-- ===== src/Prelude/Least.antt =====
-- The least element that passes a test: a loop that keeps the best one so far.
use mathlib.Core.Path.{◌≡◌, refl, sym, subst}
use mathlib.Core.Logic.{◌⊎◌, inl, inr}
use mathlib.Core.Bool.{Bool, true, false}
use mathlib.Core.List.{List, [], ◌∷◌, Memᴰ}
use mathlib.Core.Option.{Option, none, some}
use sedsprintf_rs.Prelude.Tests.{if◌then◌else◌, Bool-cases}
use sedsprintf_rs.Prelude.Sorted.{All}

module _ {A : Type 0} (before : A → A → Bool) (test : A → Bool) where
  -- An element replaces the best one so far only if it comes before it.
  abbrev pub better : Option A → A → A
  better none x = x
  better (some best) x = if before x best then x else best

  unfoldable pub least : Option A → List A → Option A
  least best [] = best
  least best (x ∷ xs) = if test x then least (some (better best x)) xs else least best xs

  -- The best element: no other that passes the test comes before it.
  abbrev pub IsLeast : A → List A → Type 0
  IsLeast a xs = All (λ x. (test x ≡ true → before x a ≡ false)) xs

  abbrev pub Selects : List A → Option A → Type 0
  Selects xs none = All (λ x. test x ≡ false) xs
  Selects xs (some a) = Memᴰ a xs × (test a ≡ true) × IsLeast a xs

  module _ (asymm : (x y : A) → before x y ≡ true → before y x ≡ false)
      (trans : (a b c : A) → before b a ≡ false → before c b ≡ false → before c a ≡ false) where
    before_irrefl : (x : A) → before x x ≡ false
    before_irrefl x = elim (Bool-cases (before x x)) [ inl e ↦ asymm x x e | inr e ↦ e ]

    abbrev Kept : A → List A → Option A → Type 0
    Kept best xs r =
        (a : A) × (r ≡ some a)
        × ((a ≡ best) ⊎ Memᴰ a xs)
        × (test a ≡ true)
        × (before best a ≡ false)
        × IsLeast a xs

    skipped : (a x : A) → test x ≡ false → test x ≡ true → before x a ≡ false
    skipped a x off on = cc

    least_from : (best : A) (xs : List A) → test best ≡ true → Kept best xs (least (some best) xs)
    unfolding least
    least_from best [] on = (best, refl, inl refl, on, before_irrefl best, tt)
    least_from best (x ∷ xs) on = elim (Bool-cases (test x)) [
      | inr off ↦
          let (a, run, place, ok_a, not_best, all) = least_from best xs on in
          let goal : Kept best (x ∷ xs) (least (some best) xs) = (
            a,
            run,
            elim place [ inl e ↦ inl e | inr m ↦ inr (Memᴰ.tail m) ],
            ok_a,
            not_best,
            (skipped a x off, all),
          ) in
          let step : least (some best) (x ∷ xs) ≡ least (some best) xs = rw (off) refl in
          subst (Kept best (x ∷ xs)) (sym step) goal
      | inl here ↦ elim (Bool-cases (before x best)) [
        | inl new ↦
            let (a, run, place, ok_a, not_x, all) = least_from x xs here in
            let goal : Kept best (x ∷ xs) (least (some x) xs) = (
              a,
              run,
              elim place [ inl e ↦ inr (Memᴰ.head e) | inr m ↦ inr (Memᴰ.tail m) ],
              ok_a,
              trans a x best not_x (asymm x best new),
              ((λ h. not_x), all),
            ) in
            let step : least (some best) (x ∷ xs) ≡ least (some x) xs = rw (here, new) refl in
            subst (Kept best (x ∷ xs)) (sym step) goal
        | inr old ↦
            let (a, run, place, ok_a, not_best, all) = least_from best xs on in
            let goal : Kept best (x ∷ xs) (least (some best) xs) = (
              a,
              run,
              elim place [ inl e ↦ inl e | inr m ↦ inr (Memᴰ.tail m) ],
              ok_a,
              not_best,
              ((λ h. trans a best x not_best old), all),
            ) in
            let step : least (some best) (x ∷ xs) ≡ least (some best) xs = rw (here, old) refl in
            subst (Kept best (x ∷ xs)) (sym step) goal
      ]
    ]

    Selects-more :
        (x : A) (xs : List A) (r : Option A) → test x ≡ false → Selects xs r → Selects (x ∷ xs) r
    Selects-more x xs none off all = (off, all)
    Selects-more x xs (some a) off (place, ok_a, all) =
        (Memᴰ.tail place, ok_a, (skipped a x off, all))

    -- The loop, started without a best element, finds one if any passes the test, and the least.
    pub least_lem : (xs : List A) → Selects xs (least none xs)
    unfolding least
    least_lem [] = tt
    least_lem (x ∷ xs) = elim (Bool-cases (test x)) [
      | inr off ↦
          let step : least none (x ∷ xs) ≡ least none xs = rw off refl in
          subst (Selects (x ∷ xs)) (sym step) (Selects-more x xs (least none xs) off (least_lem xs))
      | inl here ↦
          let (a, run, place, ok_a, not_x, all) = least_from x xs here in
          let step : least none (x ∷ xs) ≡ some a = rw here run in
          subst (Selects (x ∷ xs)) (sym step)
            (elim place [ inl e ↦ Memᴰ.head e | inr m ↦ Memᴰ.tail m ], ok_a, ((λ h. not_x), all))
    ]
