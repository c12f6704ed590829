-- ===== src/SmallPayload/Slices.antt =====
-- What a stored payload reads back as, and when storing it panics.
use sedsprintf_rs.Prelude.{
  ℕ, ◌+◌, ◌-◌, ◌≤◌, ◌<◌, ◌≡◌, refl, sym, ◌↔◌, true, Option, none, some, List, [], ◌∷◌, ◌++◌, map,
  length, take, replicate, leb, leb→le, if◌then◌else◌, Bool-cases, inl, inr, length-append,
  length-map, arith,
}
use sedsprintf_rs.SmallPayload.{
  SmallPayload, inline, heap, initialized, from_slice, buf_as_slice, new, as_slice, to_arc, len,
  is_inline, byte_cost,
}

initialized-written :
    (bytes : List ℕ) (rest : List (Option ℕ))
    → initialized (take (length bytes) (map some bytes ++ rest)) ≡ some bytes
unfolding initialized
initialized-written [] rest = refl
initialized-written (b ∷ bytes) rest = rw (initialized-written bytes rest) refl

buf_as_slice-written :
    (bytes : List ℕ) (rest : List (Option ℕ))
    → buf_as_slice (map some bytes ++ rest) (length bytes) ≡ some bytes
unfolding buf_as_slice
buf_as_slice-written bytes rest =
    let room : leb (length bytes) (length (map some bytes ++ rest)) ≡ true =
      ground (arith, length-append (map some bytes) rest, length-map {B = Option ℕ} bytes some) in
    rw (room) (initialized-written bytes rest)

-- With an inline capacity of at most 255 bytes storing never panics: the payload reads back byte for
-- byte, in both views and without touching an uninitialized cell, has the length of the data, is
-- inline exactly when the data fits, and costs its bytes, with a pointer where it is on the heap.
pub new-as_slice :
    (inline_cap arc : ℕ) (bytes : List ℕ)
    → inline_cap ≤ 255
    → (p : SmallPayload) × (new inline_cap bytes ≡ some p)
      × (as_slice p ≡ some bytes)
      × (to_arc p ≡ some bytes)
      × (len p ≡ length bytes)
      × (is_inline p ≡ leb (length bytes) inline_cap)
      × (byte_cost arc p ≡ (if is_inline p then length bytes else length bytes + arc))
unfolding new from_slice as_slice to_arc len is_inline byte_cost
new-as_slice inline_cap arc bytes small = elim (Bool-cases (leb (length bytes) inline_cap)) [
  | inl e ↦
      let word : leb (length bytes) 255 ≡ true =
        ground (arith, leb→le (length bytes) inline_cap e) in
      let rest = replicate (inline_cap - length bytes) none in
      (
        inline (length bytes) (map some bytes ++ rest),
        rw (e, word) refl,
        buf_as_slice-written bytes rest,
        buf_as_slice-written bytes rest,
        refl,
        sym e,
        refl,
      )
  | inr e ↦ (heap bytes, rw (e) refl, refl, refl, refl, sym e, refl)
]

-- Storing panics exactly for data that the inline capacity admits and whose length is above 255.
pub new-none_iff :
    (inline_cap : ℕ) (bytes : List ℕ)
    → (new inline_cap bytes ≡ none) ↔ ((255 < length bytes) × (length bytes ≤ inline_cap))
unfolding new from_slice
new-none_iff inline_cap bytes = ground arith
