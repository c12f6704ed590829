-- ===== src/Queue/Filter.antt =====
-- Removal from the bounded queue: by position, by value and by predicate.
use mathlib.Core.Path.{subst}
use sedsprintf_rs.Prelude.{
  ◌⊎◌, All, ℕ, suc, ◌≤◌, ◌≡◌, refl, sym, ap, ◌∙◌, Bool, true, false, none, some, List, [], ◌∷◌,
  ◌++◌, length, Bool-cases, inl, inr, if◌then◌else◌, length-append, append_assoc, arith,
}
use sedsprintf_rs.Queue.{
  BoundedDeque, Allocator, position, remove_pos, remove_value, retain_loop, retain,
}
use sedsprintf_rs.Queue.Bytes.{total, total-append, get_elem?-middle, take_prefix, drop_behind}
use sedsprintf_rs.Queue.Valid.{IsValid, with_q, with_q_self, IsValid-with_q}

-- The elements that pass, in their order.
unfoldable pub filter {ℓ} : {T : Type ℓ} → (T → Bool) → List T → List T
filter keep [] = []
filter keep (v ∷ q) = let rest = filter keep q in if keep v then v ∷ rest else rest

module _ {ℓ} {T : Type ℓ} (cost : T → ℕ) (a : Allocator) where
  pub remove_pos-middle :
      (d : BoundedDeque T) (xs ys : List T) (v : T)
      → remove_pos cost a (with_q cost d (xs ++ (v ∷ ys))) (length xs)
        ≡ (some v, with_q cost d (xs ++ ys))
  unfolding remove_pos
  remove_pos-middle d xs ys v =
      rw (remove_pos, get_elem?-middle xs ys v, take_prefix xs (v ∷ ys), drop_behind xs ys v)
        (ap (λ n. (some v, record d { q = xs ++ ys; cur_bytes = n }))
          (omega (arith, total-append cost xs (v ∷ ys), total-append cost xs ys)))

  retain_loop_lem :
      (d : BoundedDeque T) (keep : T → Bool) (xs ys : List T)
      → retain_loop cost a keep (length ys) (length xs) (with_q cost d (xs ++ ys))
        ≡ with_q cost d (xs ++ filter keep ys)
  unfolding retain_loop filter
  retain_loop_lem d keep xs [] = refl
  retain_loop_lem d keep xs (v ∷ ys) = elim (Bool-cases (keep v)) [
    | inl e ↦
        let next : suc (length xs) ≡ length (xs ++ (v ∷ [])) =
          omega (arith, length-append xs (v ∷ [])) in
        rw
          (
            get_elem?-middle xs ys v,
            e,
            next,
            ← append_assoc xs (v ∷ []) ys,
            ← append_assoc xs (v ∷ []) (filter keep ys),
          )
          (retain_loop_lem d keep (xs ++ (v ∷ [])) ys)
    | inr e ↦
        rw (get_elem?-middle xs ys v, e, remove_pos-middle d xs ys v) (retain_loop_lem d keep xs ys)
  ]

  filter_smaller :
      (keep : T → Bool) (q : List T)
      → (total cost (filter keep q) ≤ total cost q) × (length (filter keep q) ≤ length q)
  unfolding filter
  filter_smaller keep [] = (omega arith, omega arith)
  filter_smaller keep (v ∷ q) = let less = filter_smaller keep q in ground (arith, less)

-- `retain` terminates with exactly the elements that pass, in their order, and keeps the invariant, the
-- count of bytes included.
pub retain-filter {ℓ} :
    {T : Type ℓ} (cost : T → ℕ) (a : Allocator) (d : BoundedDeque T) (keep : T → Bool)
    → IsValid cost d
    → (retain cost a d keep
        ≡ record d { q = filter keep d.q; cur_bytes = total cost (filter keep d.q) })
      × IsValid cost (retain cost a d keep)
unfolding retain
retain-filter cost a d keep i =
    let run : retain cost a d keep ≡ with_q cost d (filter keep d.q) =
      ap (λ e. retain_loop cost a keep (length d.q) 0 e) (with_q_self cost d i)
      ∙ retain_loop_lem cost a d keep [] d.q in
    let (bytes, elems) = filter_smaller cost a keep d.q in
    (
      run,
      subst (IsValid cost) (sym run) (
          IsValid-with_q cost d (filter keep d.q) d.capacity i (omega (arith, bytes, i.budget))
            (omega (arith, elems, i.elems))),
    )

module _ {ℓ} {T : Type ℓ} (p : T → Bool) where
  -- The first element that passes, and what stands before and behind it.
  position_first :
      (q : List T)
      → ((position p q ≡ none) × All (λ w. p w ≡ false) q)
        ⊎ ((xs ys : List T) × (v : T) × (q ≡ xs ++ (v ∷ ys))
            × (position p q ≡ some (length xs))
            × (p v ≡ true)
            × All (λ w. p w ≡ false) xs)
  unfolding position
  position_first [] = inl (refl, tt)
  position_first (w ∷ q) = elim (Bool-cases (p w)) [
    | inl e ↦ inr ([], q, w, refl, rw (e) refl, e, tt)
    | inr e ↦ elim (position_first q) [
      | inl (found, others) ↦ inl (rw (e, found) refl, (e, others))
      | inr (xs, ys, v, split, found, here, others) ↦
          inr (w ∷ xs, ys, v, ap (λ z. w ∷ z) split, rw (e, found) refl, here, (e, others))
    ]
  ]

-- `remove_value` removes the first element that is the same as the needle, with its bytes, and leaves
-- the queue as it is where there is none; the invariant is kept.
pub remove_value-first {ℓ} :
    {T : Type ℓ} (cost : T → ℕ) (a : Allocator) (same : T → T → Bool) (d : BoundedDeque T)
    (needle : T)
    → IsValid cost d
    → let after = remove_value cost a same d needle in
      IsValid cost after
      × (((after ≡ d) × All (λ w. same w needle ≡ false) d.q)
          ⊎ ((xs ys : List T) × (v : T) × (d.q ≡ xs ++ (v ∷ ys))
              × (after.q ≡ xs ++ ys)
              × (same v needle ≡ true)
              × All (λ w. same w needle ≡ false) xs))
unfolding remove_value
remove_value-first cost a same d needle i = elim (position_first (λ w. same w needle) d.q) [
  | inl (found, others) ↦
      let run : remove_value cost a same d needle ≡ d = rw (remove_value, found) refl in
      (subst (IsValid cost) (sym run) i, inl (run, others))
  | inr (xs, ys, v, split, found, here, others) ↦
      let run : remove_value cost a same d needle ≡ with_q cost d (xs ++ ys) =
        rw (remove_value, found)
          (ap (λ e. (remove_pos cost a e (length xs)).1) (with_q_self cost d i)
            ∙ (ap (λ z. (remove_pos cost a (with_q cost d z) (length xs)).1) split
                ∙ ap (λ r. r.1) (remove_pos-middle cost a d xs ys v))) in
      let bytes = ap (total cost) split in
      let elems = ap length split in
      (
        subst (IsValid cost) (sym run) (
            IsValid-with_q cost d (xs ++ ys) d.capacity i
              (omega
                (arith, bytes, i.budget, total-append cost xs (v ∷ ys), total-append cost xs ys))
              (omega (arith, elems, i.elems, length-append xs (v ∷ ys), length-append xs ys))),
        inr (xs, ys, v, split, ap (λ e. e.q) run, here, others),
      )
]
