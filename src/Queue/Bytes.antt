-- ===== src/Queue/Bytes.antt =====
-- The bytes of a list of items, and parts of a list.
use sedsprintf_rs.Prelude.{
  ℕ, zero, suc, ◌+◌, ◌<◌, ◌≡◌, refl, ap, sym, ◌∙◌, some, List, [], ◌∷◌, ◌++◌, length, get_elem?,
  take, drop, length-take, arith,
}

module _ {ℓ} {T : Type ℓ} (cost : T → ℕ) where
  abbrev pub total : List T → ℕ
  total [] = 0
  total (v ∷ q) = cost v + total q

  pub total-append : (xs ys : List T) → total (xs ++ ys) ≡ total xs + total ys
  total-append [] ys = omega arith
  total-append (x ∷ xs) ys = omega (arith, total-append xs ys)

  pub total-take-drop : (n : ℕ) (q : List T) → total (take n q) + total (drop n q) ≡ total q
  total-take-drop zero q = omega arith
  total-take-drop (suc n) [] = omega arith
  total-take-drop (suc n) (v ∷ q) = omega (arith, total-take-drop n q)

module _ {ℓ} {T : Type ℓ} where
  -- A prefix of one element more ends in the element at its place.
  pub take_one_more :
      (n : ℕ) (q : List T)
      → n < length q
      → (v : T) × (get_elem? q n ≡ some v) × (take (suc n) q ≡ take n q ++ (v ∷ []))
  take_one_more n [] h = elim h [ ]
  take_one_more zero (v ∷ q) h = (v, refl, refl)
  take_one_more (suc n) (v ∷ q) h =
      let (w, e, t) = take_one_more n q (omega arith) in (w, e, ap (λ rest. v ∷ rest) t)

  pub get_elem?-last : (xs : List T) (v : T) → get_elem? (xs ++ (v ∷ [])) (length xs) ≡ some v
  get_elem?-last [] v = refl
  get_elem?-last (x ∷ xs) v = get_elem?-last xs v

  pub get_elem?-middle : (xs ys : List T) (v : T) → get_elem? (xs ++ (v ∷ ys)) (length xs) ≡ some v
  get_elem?-middle [] ys v = refl
  get_elem?-middle (x ∷ xs) ys v = get_elem?-middle xs ys v

  pub take-all : (q : List T) → take (length q) q ≡ q
  take-all [] = refl
  take-all (v ∷ q) = ap (λ rest. v ∷ rest) (take-all q)

  pub take_prefix : (xs ys : List T) → take (length xs) (xs ++ ys) ≡ xs
  take_prefix [] ys = refl
  take_prefix (x ∷ xs) ys = ap (λ rest. x ∷ rest) (take_prefix xs ys)

  pub drop_prefix : (xs ys : List T) → drop (length xs) (xs ++ ys) ≡ ys
  drop_prefix [] ys = refl
  drop_prefix (x ∷ xs) ys = drop_prefix xs ys

  pub drop_behind : (xs ys : List T) (v : T) → drop (suc (length xs)) (xs ++ (v ∷ ys)) ≡ ys
  drop_behind [] ys v = refl
  drop_behind (x ∷ xs) ys v = drop_behind xs ys v

  pub drop_one_more :
      (n : ℕ) (q : List T) → n < length q → (v : T) × (drop n q ≡ v ∷ drop (suc n) q)
  drop_one_more n [] h = elim h [ ]
  drop_one_more zero (v ∷ q) h = (v, refl)
  drop_one_more (suc n) (v ∷ q) h = drop_one_more n q (omega arith)

  pub snoc_of :
      (n : ℕ) (q : List T)
      → length q ≡ suc n
      → (xs : List T) × (v : T) × (q ≡ xs ++ (v ∷ [])) × (length xs ≡ n)
  snoc_of n q h =
      let (v, at, e) = take_one_more n q (omega (arith, h)) in
      let whole : q ≡ take n q ++ (v ∷ []) = sym (take-all q) ∙ (ap (λ m. take m q) h ∙ e) in
      (take n q, v, whole, omega (arith, length-take n q, h))
