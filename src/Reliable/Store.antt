-- ===== src/Reliable/Store.antt =====
-- A `BTreeMap` with numbers as keys: its entries in ascending order of the keys.
pub mod Lookup
use mathlib.Core.Path.{subst}
use sedsprintf_rs.Prelude.{
  ℕ, zero, suc, ◌≡◌, refl, ap, sym, ◌∙◌, Bool, true, false, Option, none, some, List, [], ◌∷◌,
  length, drop, ltb, ◌==◌, if◌then◌else◌, All, Bool-cases, inl, inr, ==_iff,
}

module _ {ℓ} where
  abbrev pub BtreeMap : Type ℓ → Type ℓ
  BtreeMap A = List (ℕ × A)

module _ {ℓ} {A : Type ℓ} where
  unfoldable pub get : ℕ → BtreeMap A → Option A
  get k [] = none
  get k ((key, v) ∷ m) = let rest = get k m in if key == k then some v else rest

  unfoldable pub insert : ℕ → A → BtreeMap A → BtreeMap A
  insert k v [] = (k, v) ∷ []
  insert k v ((key, w) ∷ m) =
      let rest = insert k v m in
      if ltb k key then (k, v) ∷ (key, w) ∷ m else if key == k then (k, v) ∷ m else (key, w) ∷ rest

  unfoldable pub remove : ℕ → BtreeMap A → BtreeMap A
  remove k [] = []
  remove k ((key, w) ∷ m) = let rest = remove k m in if key == k then m else (key, w) ∷ rest

  unfoldable pub pop_first : BtreeMap A → BtreeMap A
  pop_first [] = []
  pop_first (e ∷ m) = m

  unfoldable pub contains_key : ℕ → BtreeMap A → Bool
  contains_key k [] = false
  contains_key k ((key, w) ∷ m) = let rest = contains_key k m in if key == k then true else rest

module _ {ℓ κ} {A : Type ℓ} (P : ℕ × A → Type κ) where
  pub All-insert : (k : ℕ) (v : A) (m : BtreeMap A) → P (k, v) → All P m → All P (insert k v m)
  unfolding insert
  All-insert k v [] p a = (p, tt)
  All-insert k v ((key, w) ∷ m) p (q, a) = elim (Bool-cases (ltb k key)) [
    | inl e ↦ rw e (p, (q, a))
    | inr e ↦ elim (Bool-cases (key == k)) [
      | inl same ↦ rw (e, same) (p, a)
      | inr other ↦ rw (e, other) (q, All-insert k v m p a)
    ]
  ]

  pub All-remove : (k : ℕ) (m : BtreeMap A) → All P m → All P (remove k m)
  unfolding remove
  All-remove k [] a = tt
  All-remove k ((key, w) ∷ m) (q, a) = elim (Bool-cases (key == k)) [
    | inl same ↦ rw same a
    | inr other ↦ rw other (q, All-remove k m a)
  ]

  pub All-pop_first : (m : BtreeMap A) → All P m → All P (pop_first m)
  unfolding pop_first
  All-pop_first [] a = tt
  All-pop_first (e ∷ m) (q, a) = a

  pub All-drop : (n : ℕ) (m : BtreeMap A) → All P m → All P (drop n m)
  All-drop zero m a = a
  All-drop (suc n) [] a = tt
  All-drop (suc n) (e ∷ m) (q, a) = All-drop n m a

  pub All-get : (k : ℕ) (m : BtreeMap A) (v : A) → All P m → get k m ≡ some v → P (k, v)
  unfolding get
  All-get k [] v a e = cc
  All-get k ((key, w) ∷ m) v (q, a) e = elim (Bool-cases (key == k)) [
    | inl same ↦
        let here : get k ((key, w) ∷ m) ≡ some w = rw (get, same) refl in
        let found : some w ≡ some v = sym here ∙ e in
        let value : w ≡ v = cc in
        subst P (ap (λ n. (n, v)) ((==_iff key k).0 same)) (subst (λ z. P (key, z)) value q)
    | inr other ↦
        let later : get k ((key, w) ∷ m) ≡ get k m = rw (get, other) refl in
        All-get k m v a (sym later ∙ e)
  ]

module _ {ℓ} {A : Type ℓ} where
  pub length-remove :
      (k : ℕ) (m : BtreeMap A) (v : A) → get k m ≡ some v → suc (length (remove k m)) ≡ length m
  unfolding get remove
  length-remove k [] v e = cc
  length-remove k ((key, w) ∷ m) v e = elim (Bool-cases (key == k)) [
    | inl same ↦ rw same refl
    | inr other ↦
        let later : get k ((key, w) ∷ m) ≡ get k m = rw (get, other) refl in
        rw other (ap suc (length-remove k m v (sym later ∙ e)))
  ]
