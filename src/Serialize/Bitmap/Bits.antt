-- ===== src/Serialize/Bitmap/Bits.antt =====
-- Reading and writing one bit of a bitmap.
use sedsprintf_rs.Prelude.{
  ℕ, zero, suc, ◌*◌, ◌/◌, ◌%◌, ◌^◌, ◌≤◌, ◌<◌, ◌≡◌, refl, Bool, true, false, ◌||◌, List, [], ◌∷◌,
  length, get_or, set, replicate, length-set, length-replicate, ltb, ◌==◌, if◌then◌else◌, bit_or,
  bit_set, bit_and-one, arith, ◌∙◌, Bool-cases, inl, inr,
}
use sedsprintf_rs.Serialize.Bitmap.{set_bit, get_bit, build_loop}

-- Every element is a byte.
abbrev pub Bytes : List ℕ → Type 0
Bytes [] = Unit {0}
Bytes (b ∷ bs) = (b < 256) × Bytes bs

pub Bytes-get : (bm : List ℕ) (i : ℕ) → Bytes bm → get_or bm i 0 < 256
Bytes-get [] i h = omega arith
Bytes-get (b ∷ bm) zero h = h.0
Bytes-get (b ∷ bm) (suc i) h = Bytes-get bm i h.1

pub Bytes-set : (bm : List ℕ) (i v : ℕ) → Bytes bm → v < 256 → Bytes (set bm i v)
Bytes-set [] i v h hv = h
Bytes-set (b ∷ bm) zero v h hv = (hv, h.1)
Bytes-set (b ∷ bm) (suc i) v h hv = (h.0, Bytes-set bm i v h.1 hv)

Bytes-replicate : (n : ℕ) → Bytes (replicate n 0)
Bytes-replicate zero = tt
Bytes-replicate (suc n) = (omega arith, Bytes-replicate n)

get_or-set :
    (bm : List ℕ) (i j v : ℕ)
    → i < length bm
    → get_or (set bm i v) j 0 ≡ (if i == j then v else get_or bm j 0)
get_or-set [] i j v h = elim h [ ]
get_or-set (b ∷ bm) zero zero v h = refl
get_or-set (b ∷ bm) zero (suc j) v h = ground arith
get_or-set (b ∷ bm) (suc i) zero v h = ground arith
get_or-set (b ∷ bm) (suc i) (suc j) v h = ground (arith, get_or-set bm i j v)

get_or-replicate : (n i : ℕ) → ◌≡◌ {A = ℕ} (get_or (replicate n 0) i 0) 0
get_or-replicate zero i = refl
get_or-replicate (suc n) zero = refl
get_or-replicate (suc n) (suc i) = get_or-replicate n i

-- Setting bit `i` sets that bit and no other.
pub get_bit-set_bit :
    (bm : List ℕ) (i j : ℕ)
    → Bytes bm
    → i < 8 * length bm
    → get_bit (set_bit bm i) j ≡ (i == j || get_bit bm j)
unfolding get_bit set_bit
get_bit-set_bit bm i j h hi = ground (
  arith,
  get_or-set bm (i / 8) (j / 8) (bit_or (get_or bm (i / 8) 0) (2 ^ (i % 8))) (omega arith),
  bit_set (get_or bm (i / 8) 0) (i % 8) (j % 8) (Bytes-get bm (i / 8) h) (omega arith)
      (omega arith),
)

set_bit-Bytes : (bm : List ℕ) (i : ℕ) → Bytes bm → Bytes (set_bit bm i)
unfolding set_bit
set_bit-Bytes bm i h =
    Bytes-set bm (i / 8) _ h
      (bit_set (get_or bm (i / 8) 0) (i % 8) 0 (Bytes-get bm (i / 8) h) (omega arith)
        (omega arith)).1

length-set_bit : (bm : List ℕ) (i : ℕ) → length (set_bit bm i) ≡ length bm
unfolding set_bit
length-set_bit bm i = length-set bm (i / 8) _

abbrev pub contains : List ℕ → ℕ → Bool
contains [] j = false
contains (x ∷ xs) j = x == j || contains xs j

-- Every element is below the bound.
abbrev pub AllBelow : ℕ → List ℕ → Type 0
AllBelow n [] = Unit {0}
AllBelow n (x ∷ xs) = (x < n) × AllBelow n xs

or_regroup : (a b c : Bool) → (a || (b || c)) ≡ ((b || a) || c)
or_regroup true true c = refl
or_regroup true false c = refl
or_regroup false true c = refl
or_regroup false false c = refl

build_loop-Bytes :
    (bits : ℕ) (bm eps : List ℕ)
    → Bytes bm
    → Bytes (build_loop bits bm eps) × (length (build_loop bits bm eps) ≡ length bm)
unfolding build_loop
build_loop-Bytes bits bm [] h = (h, refl)
build_loop-Bytes bits bm (idx ∷ eps) h = elim (Bool-cases (ltb idx bits)) [
  | inl e ↦ rw e (
      ground (
        arith,
        length-set_bit bm idx,
        build_loop-Bytes bits (set_bit bm idx) eps (set_bit-Bytes bm idx h),
      ))
  | inr e ↦ rw e (build_loop-Bytes bits bm eps h)
]

build_loop-get_bit :
    (bits : ℕ) (bm eps : List ℕ) (j : ℕ)
    → Bytes bm
    → bits ≤ 8 * length bm
    → AllBelow bits eps
    → get_bit (build_loop bits bm eps) j ≡ (contains eps j || get_bit bm j)
unfolding build_loop
build_loop-get_bit bits bm [] j h fits all = refl
build_loop-get_bit bits bm (idx ∷ eps) j h fits all =
    let used : ltb idx bits ≡ true = ground arith in
    rw used (
      ground (
        arith,
        build_loop-get_bit bits (set_bit bm idx) eps j (set_bit-Bytes bm idx h),
        length-set_bit bm idx,
        get_bit-set_bit bm idx j h (omega arith),
      ))

get_bit-replicate : (n j : ℕ) → get_bit (replicate n 0) j ≡ false
unfolding get_bit
get_bit-replicate n j = ground (
  arith,
  get_or-replicate n (j / 8),
  bit_and-one (get_or (replicate n 0) (j / 8) 0 / 2 ^ (j % 8)),
)

-- On a fresh bitmap, the bits set are exactly those of the endpoints.
pub build_loop-contains :
    (bits bytes : ℕ) (eps : List ℕ) (j : ℕ)
    → bits ≤ 8 * bytes
    → AllBelow bits eps
    → get_bit (build_loop bits (replicate bytes 0) eps) j ≡ contains eps j
build_loop-contains bits bytes eps j fits all = ground (
  arith,
  length-replicate {A = ℕ} bytes 0,
  build_loop-get_bit bits (replicate bytes 0) eps j (Bytes-replicate bytes),
  get_bit-replicate bytes j,
)

pub build_loop_shape :
    (bits bytes : ℕ) (eps : List ℕ)
    → Bytes (build_loop bits (replicate bytes 0) eps)
      × (length (build_loop bits (replicate bytes 0) eps) ≡ bytes)
build_loop_shape bits bytes eps =
    let (all, same) = build_loop-Bytes bits (replicate bytes 0) eps (Bytes-replicate bytes) in
    (all, same ∙ length-replicate bytes 0)
