-- ===== src/Prelude/Strings.antt =====
-- Strings as lists of bytes, in the order of `str`, and maps with strings as keys.
pub mod Lookup
use mathlib.Core.Path.{◌≡◌, refl, ap}
use mathlib.Core.Logic.{◌⊎◌, inl, inr}
use mathlib.Core.Bool.{Bool, true, false}
use mathlib.Core.List.{List, [], ◌∷◌}
use mathlib.Core.Option.{Option, none, some}
use Prim.Native.Nat.{ℕ}
use native.Mathlib.Omega.{arith}
use sedsprintf_rs.Prelude.Tests.{ltb, ◌==◌, if◌then◌else◌, Bool-cases}
use sedsprintf_rs.Prelude.Sorted.{All}

-- The lexicographic order.
abbrev pub str_lt : List ℕ → List ℕ → Bool
str_lt xs [] = false
str_lt [] (y ∷ ys) = true
str_lt (x ∷ xs) (y ∷ ys) =
    let rest = str_lt xs ys in if ltb x y then true else if ltb y x then false else rest

abbrev pub str_eq : List ℕ → List ℕ → Bool
str_eq [] [] = true
str_eq [] (y ∷ ys) = false
str_eq (x ∷ xs) [] = false
str_eq (x ∷ xs) (y ∷ ys) = let rest = str_eq xs ys in if x == y then rest else false

pub str_lt_asymm : (xs ys : List ℕ) → str_lt xs ys ≡ true → str_lt ys xs ≡ false
str_lt_asymm [] [] h = refl
str_lt_asymm [] (y ∷ ys) h = refl
str_lt_asymm (x ∷ xs) [] h = cc
str_lt_asymm (x ∷ xs) (y ∷ ys) h = let ih = str_lt_asymm xs ys in ground arith

pub str_lt_trans :
    (xs ys zs : List ℕ) → str_lt ys xs ≡ false → str_lt zs ys ≡ false → str_lt zs xs ≡ false
str_lt_trans [] [] zs h k = k
str_lt_trans [] (y ∷ ys) [] h k = cc
str_lt_trans [] (y ∷ ys) (z ∷ zs) h k = refl
str_lt_trans (x ∷ xs) [] zs h k = cc
str_lt_trans (x ∷ xs) (y ∷ ys) [] h k = cc
str_lt_trans (x ∷ xs) (y ∷ ys) (z ∷ zs) h k = let ih = str_lt_trans xs ys zs in ground arith

-- The order has no gaps: two strings that are not in order are the same.
pub str_lt_total :
    (xs ys : List ℕ) → str_lt xs ys ≡ false → str_eq ys xs ≡ false → str_lt ys xs ≡ true
str_lt_total [] [] h k = cc
str_lt_total [] (y ∷ ys) h k = cc
str_lt_total (x ∷ xs) [] h k = refl
str_lt_total (x ∷ xs) (y ∷ ys) h k = let ih = str_lt_total xs ys in ground arith

pub str_lt_strict :
    (xs ys zs : List ℕ) → str_lt xs ys ≡ true → str_lt ys zs ≡ true → str_lt xs zs ≡ true
str_lt_strict xs ys [] h k = k
str_lt_strict [] ys (z ∷ zs) h k = refl
str_lt_strict (x ∷ xs) [] (z ∷ zs) h k = cc
str_lt_strict (x ∷ xs) (y ∷ ys) (z ∷ zs) h k = let ih = str_lt_strict xs ys zs in ground arith

pub str_lt_irrefl : (xs : List ℕ) → str_lt xs xs ≡ false
str_lt_irrefl [] = refl
str_lt_irrefl (x ∷ xs) = let ih = str_lt_irrefl xs in ground arith

pub str_eq_sound : (xs ys : List ℕ) → str_eq xs ys ≡ true → xs ≡ ys
str_eq_sound [] [] h = refl
str_eq_sound [] (y ∷ ys) h = cc
str_eq_sound (x ∷ xs) [] h = cc
str_eq_sound (x ∷ xs) (y ∷ ys) h = let ih = str_eq_sound xs ys in grind arith

pub str_eq_refl : (xs : List ℕ) → str_eq xs xs ≡ true
str_eq_refl [] = refl
str_eq_refl (x ∷ xs) = let ih = str_eq_refl xs in grind arith

module _ {ℓ} where
  -- A `BTreeMap<String, A>`: its entries in the order of the keys.
  abbrev pub StringMap : Type ℓ → Type ℓ
  StringMap A = List (List ℕ × A)

module _ {ℓ} {A : Type ℓ} where
  unfoldable pub lookup : List ℕ → StringMap A → Option A
  lookup k [] = none
  lookup k ((key, v) ∷ m) = let rest = lookup k m in if str_eq key k then some v else rest

  unfoldable pub insert_key : List ℕ → A → StringMap A → StringMap A
  insert_key k v [] = (k, v) ∷ []
  insert_key k v ((key, w) ∷ m) =
      let rest = insert_key k v m in
      if str_lt k key
      then (k, v) ∷ (key, w) ∷ m
      else if str_eq key k
      then (k, v) ∷ m
      else (key, w) ∷ rest

  unfoldable pub remove_key : List ℕ → StringMap A → StringMap A
  remove_key k [] = []
  remove_key k ((key, w) ∷ m) =
      let rest = remove_key k m in if str_eq key k then m else (key, w) ∷ rest

  unfoldable pub retain : (List ℕ × A → Bool) → StringMap A → StringMap A
  retain keep [] = []
  retain keep (e ∷ m) = let rest = retain keep m in if keep e then e ∷ rest else rest
