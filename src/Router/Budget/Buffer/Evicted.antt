-- ===== src/Router/Budget/Buffer/Evicted.antt =====
-- What evictions take from a stream.
use mathlib.Core.Path.{subst}
use sedsprintf_rs.Prelude.{
  ℕ, zero, suc, ◌+◌, ◌≡◌, refl, ap, ◌∙◌, Bool, true, Option, none, some, List, [], ◌∷◌, drop,
  is_empty, inl, inr, Bool-cases, arith,
}
use sedsprintf_rs.Reliable.{ReliableRxState, evict}
use sedsprintf_rs.Reliable.Store.{BtreeMap, pop_first}
use sedsprintf_rs.Router.Budget.{pop_buffered}
use sedsprintf_rs.Router.Budget.Buffer.{stream_of, put_stream}

drop_nothing : (k : ℕ) → drop {A = ℕ × List ℕ} k [] ≡ []
drop_nothing zero = refl
drop_nothing (suc k) = refl

drop-drop : (n k : ℕ) (m : BtreeMap (List ℕ)) → drop k (drop n m) ≡ drop (n + k) m
drop-drop zero k m = ap (λ j. drop j m) (omega arith)
drop-drop (suc n) k [] = let sum : suc n + k ≡ suc (n + k) = omega arith in rw sum (drop_nothing k)
drop-drop (suc n) k (e ∷ m) =
    let sum : suc n + k ≡ suc (n + k) = omega arith in rw sum (drop-drop n k m)

evict-evict : (n k : ℕ) (rx : ReliableRxState) → evict k (evict n rx) ≡ evict (n + k) rx
unfolding evict
evict-evict n k rx = ap (λ m. record rx { buffered = m }) (drop-drop n k rx.buffered)

first_dropped : (m : BtreeMap (List ℕ)) → pop_first m ≡ drop 1 m
unfolding pop_first
first_dropped [] = refl
first_dropped (e ∷ m) = refl

evict_first : (rx : ReliableRxState) → record rx { buffered = pop_first rx.buffered } ≡ evict 1 rx
unfolding evict
evict_first rx = ap (λ m. record rx { buffered = m }) (first_dropped rx.buffered)

-- A stream loses frames from its front, or there is none before and after.
abbrev pub Shrunk : Option ReliableRxState → Option ReliableRxState → Type 0
Shrunk none after = after ≡ none
Shrunk (some rx) after = (n : ℕ) × (after ≡ some (evict n rx))

pub Shrunk-same : (o : Option ReliableRxState) → Shrunk o o
unfolding evict
Shrunk-same none = refl
Shrunk-same (some rx) = (0, refl)

pub Shrunk-trans : (o p q : Option ReliableRxState) → Shrunk o p → Shrunk p q → Shrunk o q
Shrunk-trans none p q h k = subst (λ x. Shrunk x q) h k
Shrunk-trans (some rx) p q (n, h) k =
    let (j, e) = subst (λ x. Shrunk x q) h k in (n + j, e ∙ ap (λ s. some s) (evict-evict n j rx))

module _ {K : Type 0} (same_key before : K → K → Bool) (k : K) where
  abbrev find : List (K × ReliableRxState) → Option ReliableRxState
  find streams = stream_of same_key before k streams

  abbrev pub PopShrinks : List (K × ReliableRxState) → Option (List (K × ReliableRxState)) → Type 0
  PopShrinks streams none = Unit
  PopShrinks streams (some streams') = Shrunk (find streams) (find streams')

  later_stream :
      (key : K) (rx : ReliableRxState) (streams : List (K × ReliableRxState))
      (r : Option (List (K × ReliableRxState)))
      → PopShrinks streams r
      → PopShrinks
          ((key, rx) ∷ streams)
          (elim r [ none ↦ none | some rest ↦ some ((key, rx) ∷ rest) ])
  unfolding stream_of
  later_stream key rx streams none h = tt
  later_stream key rx streams (some rest) h = elim (Bool-cases (same_key key k)) [
    | inl here ↦ rw here (Shrunk-same (some rx))
    | inr other ↦ rw other h
  ]

  pub pop_buffered-Shrinks :
      (streams : List (K × ReliableRxState)) → PopShrinks streams (pop_buffered streams)
  unfolding pop_buffered stream_of
  pop_buffered-Shrinks [] = tt
  pop_buffered-Shrinks ((key, rx) ∷ streams) = elim (Bool-cases (is_empty rx.buffered)) [
    | inl empty ↦
        rw empty (later_stream key rx streams (pop_buffered streams) (pop_buffered-Shrinks streams))
    | inr some_frame ↦ elim (Bool-cases (same_key key k)) [
      | inl here ↦ rw (some_frame, here) (1, ap (λ s. some s) (evict_first rx))
      | inr other ↦ rw (some_frame, other) (Shrunk-same (find streams))
    ]
  ]

  pub put_stream-found :
      (rx : ReliableRxState) (streams : List (K × ReliableRxState))
      → same_key k k ≡ true
      → find (put_stream same_key before k rx streams) ≡ some rx
  unfolding stream_of put_stream
  put_stream-found rx [] same = rw same refl
  put_stream-found rx ((key, other) ∷ streams) same = elim (Bool-cases (same_key key k)) [
    | inl here ↦ rw (here, here) refl
    | inr past ↦ elim (Bool-cases (before k key)) [
      | inl first ↦ rw (past, first, same) refl
      | inr later ↦ rw (past, later, past) (put_stream-found rx streams same)
    ]
  ]
