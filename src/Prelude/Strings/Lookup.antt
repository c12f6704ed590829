-- ===== src/Prelude/Strings/Lookup.antt =====
-- A map with strings as keys keeps them in ascending order, and finds each of its entries.
use mathlib.Core.Path.{◌≡◌, refl, sym, ap, subst}
use mathlib.Core.Logic.{inl, inr}
use mathlib.Core.Bool.{Bool, true, false}
use mathlib.Core.List.{List, [], ◌∷◌, Memᴰ}
use mathlib.Core.Option.{some}
use Prim.Native.Nat.{ℕ}
use sedsprintf_rs.Prelude.Tests.{Bool-cases}
use sedsprintf_rs.Prelude.Sorted.{All}
use sedsprintf_rs.Prelude.Strings.{
  str_lt, str_eq, str_lt_total, str_lt_strict, str_lt_irrefl, str_eq_sound, str_eq_refl, StringMap,
  lookup, insert_key, retain,
}

module _ {A : Type 0} where
  abbrev pub Above : List ℕ → StringMap A → Type 0
  Above k m = All (λ entry. str_lt k (entry.0) ≡ true) m

  abbrev pub Ascending : StringMap A → Type 0
  Ascending [] = Unit
  Ascending ((k, v) ∷ m) = Above k m × Ascending m

  module _ (P : List ℕ × A → Type 0) where
    pub All-insert_key :
        (k : List ℕ) (v : A) (m : StringMap A) → P (k, v) → All P m → All P (insert_key k v m)
    unfolding insert_key
    All-insert_key k v [] p a = (p, tt)
    All-insert_key k v ((key, w) ∷ m) p (q, a) =
        let rest = All-insert_key k v m p a in
        elim (Bool-cases (str_lt k key)) [
          | inl e ↦ rw e (p, (q, a))
          | inr e ↦ elim (Bool-cases (str_eq key k)) [
            | inl same ↦ rw (e, same) (p, a)
            | inr other ↦ rw (e, other) (q, rest)
          ]
        ]

    pub All-retain : (keep : List ℕ × A → Bool) (m : StringMap A) → All P m → All P (retain keep m)
    unfolding retain
    All-retain keep [] a = tt
    All-retain keep (entry ∷ m) (q, a) =
        let rest = All-retain keep m a in
        elim (Bool-cases (keep entry)) [ inl e ↦ rw e (q, rest) | inr e ↦ rw e rest ]

  Above-weaken : (k l : List ℕ) (m : StringMap A) → str_lt k l ≡ true → Above l m → Above k m
  Above-weaken k l [] h a = tt
  Above-weaken k l ((key, w) ∷ m) h (q, a) = (str_lt_strict k l key h q, Above-weaken k l m h a)

  pub Ascending-insert_key :
      (k : List ℕ) (v : A) (m : StringMap A) → Ascending m → Ascending (insert_key k v m)
  unfolding insert_key
  Ascending-insert_key k v [] a = (tt, tt)
  Ascending-insert_key k v ((key, w) ∷ m) (q, a) =
      let rest = Ascending-insert_key k v m a in
      elim (Bool-cases (str_lt k key)) [
        | inl e ↦ rw e ((e, Above-weaken k key m e q), (q, a))
        | inr e ↦ elim (Bool-cases (str_eq key k)) [
          | inl same ↦ rw (e, same) (subst (λ z. Above z m) (str_eq_sound key k same) q, a)
          | inr other ↦
              let above : str_lt key k ≡ true = str_lt_total k key e other in
              rw (e, other)
                (All-insert_key (λ entry. str_lt key (entry.0) ≡ true) k v m above q, rest)
        ]
      ]

  pub Ascending-retain :
      (keep : List ℕ × A → Bool) (m : StringMap A) → Ascending m → Ascending (retain keep m)
  unfolding retain
  Ascending-retain keep [] a = tt
  Ascending-retain keep ((k, v) ∷ m) (q, a) =
      let rest = Ascending-retain keep m a in
      elim (Bool-cases (keep (k, v))) [
        | inl e ↦ rw e (All-retain (λ entry. str_lt k (entry.0) ≡ true) keep m q, rest)
        | inr e ↦ rw e rest
      ]

  pub All-Memᴰ :
      (P : List ℕ × A → Type 0) (m : StringMap A) (e : List ℕ × A) → All P m → Memᴰ e m → P e
  All-Memᴰ P [] e a place = elim place [ ]
  All-Memᴰ P (x ∷ m) e (p, a) (Memᴰ.head same) = subst P (sym same) p
  All-Memᴰ P (x ∷ m) e (p, a) (Memᴰ.tail later) = All-Memᴰ P m e a later

  pub lookup_member :
      (k : List ℕ) (v : A) (m : StringMap A) → Ascending m → Memᴰ (k, v) m → lookup k m ≡ some v
  unfolding lookup
  lookup_member k v [] a place = elim place [ ]
  lookup_member k v ((key, w) ∷ m) (q, a) (Memᴰ.head same) =
      let keys : k ≡ key = ap (λ e. e.0) same in
      let values : v ≡ w = ap (λ e. e.1) same in rw (keys, str_eq_refl key, values) refl
  lookup_member k v ((key, w) ∷ m) (q, a) (Memᴰ.tail later) =
      let above = All-Memᴰ (λ entry. str_lt key (entry.0) ≡ true) m (k, v) q later in
      let other : str_eq key k ≡ false = elim (Bool-cases (str_eq key k)) [
        | inl same ↦
            let here : str_lt key key ≡ true =
              subst (λ z. str_lt key z ≡ true) (sym (str_eq_sound key k same)) above in
            let never = str_lt_irrefl key in cc
        | inr other ↦ other
      ] in
      rw other (lookup_member k v m a later)

  pub lookup-insert_key :
      (k : List ℕ) (v : A) (m : StringMap A) → lookup k (insert_key k v m) ≡ some v
  unfolding lookup insert_key
  lookup-insert_key k v [] = rw (str_eq_refl k) refl
  lookup-insert_key k v ((key, w) ∷ m) = elim (Bool-cases (str_lt k key)) [
    | inl e ↦ rw (e, str_eq_refl k) refl
    | inr e ↦ elim (Bool-cases (str_eq key k)) [
      | inl same ↦ rw (e, same, str_eq_refl k) refl
      | inr other ↦ rw (e, other, other) (lookup-insert_key k v m)
    ]
  ]
