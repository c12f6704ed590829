-- ===== src/Reliable/Store/Lookup.antt =====
-- What a `BTreeMap` finds after an insertion or a removal.
use mathlib.Core.Path.{subst}
use sedsprintf_rs.Prelude.{
  ℕ, ◌<◌, ◌≡◌, ◌≢◌, refl, none, some, true, false, [], ◌∷◌, ltb, ltb→lt, ◌==◌, Bool-cases, inl, inr,
  All, arith,
}
use sedsprintf_rs.Reliable.Store.{BtreeMap, get, insert, remove, All-insert, All-remove}

module _ {ℓ} {A : Type ℓ} where
  -- The keys ascend.
  abbrev pub Ascending : BtreeMap A → Type 0
  Ascending [] = Unit
  Ascending ((key, v) ∷ m) = All (λ (e : ℕ × A). key < e.0) m × Ascending m

  pub get-remove_ne : (j k : ℕ) (m : BtreeMap A) → j ≢ k → get k (remove j m) ≡ get k m
  unfolding get remove
  get-remove_ne j k [] h = refl
  get-remove_ne j k ((key, w) ∷ m) h = elim (Bool-cases (key == j)) [
    | inl same ↦ let other : (key == k) ≡ false = ground (arith, same) in rw (same, other) refl
    | inr keep ↦ elim (Bool-cases (key == k)) [
      | inl here ↦ rw (keep, here) refl
      | inr other ↦ rw (keep, other) (get-remove_ne j k m h)
    ]
  ]

  get-above : (k : ℕ) (m : BtreeMap A) → All (λ (e : ℕ × A). k < e.0) m → get k m ≡ none
  unfolding get
  get-above k [] a = refl
  get-above k ((key, w) ∷ m) (lt, a) =
      let other : (key == k) ≡ false = ground (arith, lt) in rw other (get-above k m a)

  pub get-remove_same : (k : ℕ) (m : BtreeMap A) → Ascending m → get k (remove k m) ≡ none
  unfolding get remove
  get-remove_same k [] a = refl
  get-remove_same k ((key, w) ∷ m) (above, a) = elim (Bool-cases (key == k)) [
    | inl same ↦
        let here : key ≡ k = ground (arith, same) in
        rw same (get-above k m (subst (λ n. All (λ (e : ℕ × A). n < e.0) m) here above))
    | inr keep ↦ rw (keep, keep) (get-remove_same k m a)
  ]

  -- A key that is absent stays so.
  pub get-remove_absent : (j k : ℕ) (m : BtreeMap A) → get k m ≡ none → get k (remove j m) ≡ none
  unfolding get remove
  get-remove_absent j k [] h = refl
  get-remove_absent j k ((key, w) ∷ m) h = elim (Bool-cases (key == k)) [
    | inl here ↦ let found : get k ((key, w) ∷ m) ≡ some w = rw (get, here) refl in cc
    | inr other ↦
        let later : get k ((key, w) ∷ m) ≡ get k m = rw (get, other) refl in
        let absent : get k m ≡ none = cc in
        elim (Bool-cases (key == j)) [
          | inl same ↦ rw same absent
          | inr keep ↦ rw (keep, other) (get-remove_absent j k m absent)
        ]
  ]

  pub Ascending-remove : (k : ℕ) (m : BtreeMap A) → Ascending m → Ascending (remove k m)
  unfolding remove
  Ascending-remove k [] a = tt
  Ascending-remove k ((key, w) ∷ m) (above, a) = elim (Bool-cases (key == k)) [
    | inl same ↦ rw same a
    | inr keep ↦ rw keep (All-remove (λ (e : ℕ × A). key < e.0) k m above, Ascending-remove k m a)
  ]

  pub get-insert_same : (k : ℕ) (v : A) (m : BtreeMap A) → get k (insert k v m) ≡ some v
  unfolding get insert
  get-insert_same k v [] = let same : (k == k) ≡ true = ground arith in rw same refl
  get-insert_same k v ((key, w) ∷ m) =
      let same : (k == k) ≡ true = ground arith in
      elim (Bool-cases (ltb k key)) [
        | inl first ↦ rw (first, same) refl
        | inr later ↦ elim (Bool-cases (key == k)) [
          | inl here ↦ rw (later, here, same) refl
          | inr other ↦ rw (later, other, other) (get-insert_same k v m)
        ]
      ]

  pub get-insert_ne : (j k : ℕ) (v : A) (m : BtreeMap A) → j ≢ k → get k (insert j v m) ≡ get k m
  unfolding get insert
  get-insert_ne j k v [] h = let other : (j == k) ≡ false = ground arith in rw other refl
  get-insert_ne j k v ((key, w) ∷ m) h =
      let other : (j == k) ≡ false = ground arith in
      elim (Bool-cases (ltb j key)) [
        | inl first ↦ rw (first, other) refl
        | inr later ↦ elim (Bool-cases (key == j)) [
          | inl here ↦
              let gone : (key == k) ≡ false = ground (arith, here) in
              rw (later, here, other, gone) refl
          | inr keep ↦ elim (Bool-cases (key == k)) [
            | inl found ↦ rw (later, keep, found) refl
            | inr past ↦ rw (later, keep, past) (get-insert_ne j k v m h)
          ]
        ]
      ]

  above-weaken :
      (j k : ℕ) (m : BtreeMap A)
      → j < k
      → All (λ (e : ℕ × A). k < e.0) m
      → All (λ (e : ℕ × A). j < e.0) m
  above-weaken j k [] h a = tt
  above-weaken j k ((key, w) ∷ m) h (lt, a) = (omega (arith, lt, h), above-weaken j k m h a)

  pub Ascending-insert : (k : ℕ) (v : A) (m : BtreeMap A) → Ascending m → Ascending (insert k v m)
  unfolding insert
  Ascending-insert k v [] a = (tt, tt)
  Ascending-insert k v ((key, w) ∷ m) (above, a) = elim (Bool-cases (ltb k key)) [
    | inl first ↦
        let lt = ltb→lt k key first in rw first ((lt, above-weaken k key m lt above), (above, a))
    | inr later ↦ elim (Bool-cases (key == k)) [
      | inl here ↦
          let same : key ≡ k = ground (arith, here) in
          rw (later, here) (subst (λ n. All (λ (e : ℕ × A). n < e.0) m) same above, a)
      | inr keep ↦
          let lt : key < k = ground (arith, later, keep) in
          rw (later, keep)
            (All-insert (λ (e : ℕ × A). key < e.0) k v m lt above, Ascending-insert k v m a)
    ]
  ]
