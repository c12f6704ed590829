-- ===== src/Reliable/Link/Wire.antt =====
-- The frames on the way and the numbers that were given, below the sender's next number.
use mathlib.Core.Path.{subst}
use mathlib.Core.List.{Memᴰ}
use sedsprintf_rs.Prelude.{ℕ, ◌+◌, ◌<◌, ◌≡◌, sym, List, [], ◌∷◌, ◌++◌, u32_mod, All, arith}
use sedsprintf_rs.Reliable.InOrder.{Labelled}
use sedsprintf_rs.Reliable.Below.{EntryBelow}

module _ (payload : ℕ → List ℕ) where
  -- A frame on the way is the payload of its number, below the next one.
  abbrev pub OnWire : ℕ → ℕ × List ℕ → Type 0
  OnWire next (seq, bytes) = (bytes ≡ payload seq) × (seq < next)

  pub below-weaken :
      (next : ℕ) (m : List ℕ) → All (λ seq. seq < next) m → All (λ seq. seq < next + 1) m
  below-weaken next [] a = tt
  below-weaken next (seq ∷ m) (lt, a) = (omega (arith, lt), below-weaken next m a)

  -- A number of the list is below the bound, and so are the others.
  pub below_without :
      (next seq : ℕ) (before after : List ℕ)
      → All (λ k. k < next) (before ++ (seq ∷ after))
      → (seq < next) × All (λ k. k < next) (before ++ after)
  below_without next seq [] after (lt, a) = (lt, a)
  below_without next seq (k ∷ before) after (below, a) =
      let (lt, others) = below_without next seq before after a in (lt, (below, others))

  pub OnWire-weaken :
      (next : ℕ) (m : List (ℕ × List ℕ)) → All (OnWire next) m → All (OnWire (next + 1)) m
  OnWire-weaken next [] a = tt
  OnWire-weaken next ((seq, bytes) ∷ m) ((same, lt), a) =
      ((same, omega (arith, lt)), OnWire-weaken next m a)

  pub OnWire-Labelled :
      (next : ℕ) (m : List (ℕ × List ℕ))
      → next < u32_mod
      → All (OnWire next) m
      → All (Labelled payload) m
  OnWire-Labelled next [] small a = tt
  OnWire-Labelled next ((seq, bytes) ∷ m) small ((same, lt), a) =
      ((same, omega (arith, lt, small)), OnWire-Labelled next m small a)

  pub OnWire-EntryBelow :
      (next : ℕ) (small : next < u32_mod) (m : List (ℕ × List ℕ))
      → All (OnWire next) m
      → All (EntryBelow next small) m
  OnWire-EntryBelow next small [] a = tt
  OnWire-EntryBelow next small ((seq, bytes) ∷ m) ((same, lt), a) =
      (lt, OnWire-EntryBelow next small m a)

  pub Labelled-OnWire :
      (next : ℕ) (small : next < u32_mod) (m : List (ℕ × List ℕ))
      → All (Labelled payload) m
      → All (EntryBelow next small) m
      → All (OnWire next) m
  Labelled-OnWire next small [] a b = tt
  Labelled-OnWire next small ((seq, bytes) ∷ m) ((same, u), a) (lt, b) =
      ((same, lt), Labelled-OnWire next small m a b)

  pub OnWire-member :
      (next seq : ℕ) (bytes : List ℕ) (m : List (ℕ × List ℕ))
      → All (OnWire next) m
      → Memᴰ (seq, bytes) m
      → OnWire next (seq, bytes)
  OnWire-member next seq bytes [] a place = elim place [ ]
  OnWire-member next seq bytes (e ∷ m) (p, a) (Memᴰ.head same) = subst (OnWire next) (sym same) p
  OnWire-member next seq bytes (e ∷ m) (p, a) (Memᴰ.tail later) =
      OnWire-member next seq bytes m a later
