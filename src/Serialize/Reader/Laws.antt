-- ===== src/Serialize/Reader/Laws.antt =====
-- The reader at a split of its buffer: what it has passed, and what is still to come.
use sedsprintf_rs.Prelude.{
  ℕ, ◌≡◌, refl, ap, List, [], ◌∷◌, ◌++◌, append_assoc, length, length-append, take, drop, IsU32,
  arith,
}
use sedsprintf_rs.Error.{ok}
use sedsprintf_rs.Serialize.Reader.{
  ByteReader, new, remaining, read_bytes, read_byte, to_le_bytes32, from_le_bytes32, read_u32_le,
}

abbrev pub at : List ℕ → List ℕ → ByteReader
at passed rest = record { buf = passed ++ rest; off = length passed }

pub new-at : (buf : List ℕ) → new buf ≡ at [] buf
unfolding new
new-at buf = refl

pub remaining-at : (passed rest : List ℕ) → remaining (at passed rest) ≡ length rest
unfolding remaining
remaining-at passed rest = omega (arith, length-append passed rest)

pub drop-length {ℓ} : {A : Type ℓ} (xs ys : List A) → drop (length xs) (xs ++ ys) ≡ ys
drop-length [] ys = refl
drop-length (x ∷ xs) ys = drop-length xs ys

pub take-length {ℓ} : {A : Type ℓ} (xs ys : List A) → take (length xs) (xs ++ ys) ≡ xs
take-length [] ys = refl
take-length (x ∷ xs) ys = ap (λ t. x ∷ t) (take-length xs ys)

-- The reader hands out exactly what stands next, and moves past it.
pub read_bytes-at :
    (passed xs rest : List ℕ)
    → read_bytes (length xs) (at passed (xs ++ rest)) ≡ ok (xs, at (passed ++ xs) rest)
unfolding read_bytes
read_bytes-at passed xs rest = ground (
  arith,
  remaining-at passed (xs ++ rest),
  length-append xs rest,
  length-append passed xs,
  drop-length passed (xs ++ rest),
  take-length xs rest,
  append_assoc passed xs rest,
)

pub read_bytes-at-length :
    (n : ℕ) (passed xs rest : List ℕ)
    → n ≡ length xs
    → read_bytes n (at passed (xs ++ rest)) ≡ ok (xs, at (passed ++ xs) rest)
read_bytes-at-length n passed xs rest e = rw e (read_bytes-at passed xs rest)

pub read_byte-at :
    (passed : List ℕ) (b : ℕ) (rest : List ℕ)
    → read_byte (at passed (b ∷ rest)) ≡ ok (b, at (passed ++ b ∷ []) rest)
unfolding read_byte
read_byte-at passed b rest = rw (read_bytes-at passed (b ∷ []) rest)

pub from_le_bytes32-to_le_bytes32 : (v : ℕ) → IsU32 v → from_le_bytes32 (to_le_bytes32 v) ≡ v
unfolding from_le_bytes32 to_le_bytes32
from_le_bytes32-to_le_bytes32 v h = omega arith

read_four :
    (passed : List ℕ) (v : ℕ) (rest : List ℕ)
    → read_bytes 4 (at passed (to_le_bytes32 v ++ rest))
      ≡ ok (to_le_bytes32 v, at (passed ++ to_le_bytes32 v) rest)
unfolding to_le_bytes32
read_four passed v rest = read_bytes-at passed (to_le_bytes32 v) rest

-- A `u32` written in little-endian order is read back.
pub read_u32_le-at :
    (passed : List ℕ) (v : ℕ) (rest : List ℕ)
    → IsU32 v
    → read_u32_le (at passed (to_le_bytes32 v ++ rest))
      ≡ ok (v, at (passed ++ to_le_bytes32 v) rest)
unfolding read_u32_le
read_u32_le-at passed v rest h =
    rw (read_four passed v rest)
      (ap (λ t. ok (t, at (passed ++ to_le_bytes32 v) rest)) (from_le_bytes32-to_le_bytes32 v h))
