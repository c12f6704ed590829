-- ===== src/Packet/Typed/RoundTrip.antt =====
-- The typed readers return what the typed constructors put in.
use sedsprintf_rs.Prelude.{
  ℕ, ◌*◌, ◌/◌, ◌%◌, ◌≡◌, refl, ap, ◌∙◌, Bool, true, false, not, ◌||◌, List, [], ◌∷◌, length, map,
  ◌==◌, All, IsU64, arith,
}
use sedsprintf_rs.Error.{ok, >>=-eq-ok, fail_if, fail_if_passed, ◌>>◌, bad_arg, type_mismatch}
use sedsprintf_rs.Schema.{Schema, uint64, bool, string, binary, data_type_size, get_data_type}
use sedsprintf_rs.External.{External}
use sedsprintf_rs.Packet.{Packet, new, to_le_bytes64}
use sedsprintf_rs.Packet.Checks.{new-validate}
use sedsprintf_rs.Packet.Typed.{
  same_kind, as_le_bytes, check_exact, u64_prim, from_le_bytes, encode_slice_le, decode_chunks,
  from_prim_le_slice_with_sender, from_bool_slice, ensure_kind, data_as_u64, data_as_bool,
  bool_bytes,
}

from_le_bytes-to_le_bytes64 : (v : ℕ) → IsU64 v → from_le_bytes (to_le_bytes64 v) ≡ v
unfolding from_le_bytes to_le_bytes64
from_le_bytes-to_le_bytes64 v small = omega arith

length-encode_slice_le :
    (values : List ℕ) → length (encode_slice_le u64_prim values) ≡ length values * 8
unfolding encode_slice_le to_le_bytes64
length-encode_slice_le [] = refl
length-encode_slice_le (v ∷ values) = omega (arith, length-encode_slice_le values)

decode_chunks-encode_slice_le :
    (values : List ℕ)
    → All IsU64 values
    → decode_chunks u64_prim (length values) (encode_slice_le u64_prim values) ≡ values
unfolding encode_slice_le decode_chunks to_le_bytes64
decode_chunks-encode_slice_le [] all = refl
decode_chunks-encode_slice_le (v ∷ values) (small, all) =
    ap (λ z. z ∷ decode_chunks u64_prim (length values) (encode_slice_le u64_prim values))
      (from_le_bytes-to_le_bytes64 v small)
    ∙ ap (λ z. v ∷ z) (decode_chunks-encode_slice_le values all)

not-false : (b : Bool) → not b ≡ false → b ≡ true
not-false true h = refl
not-false false h = cc

module _ (s : Schema) (x : External) where
  -- A packet built from a slice of `u64`s of a type of `u64`s reads back as that slice, and it carries
  -- the arguments that it was built from.
  pub data_as_u64-from_prim_le_slice_with_sender :
      (ty timestamp : ℕ) (values endpoints sender : List ℕ) (p : Packet)
      → from_prim_le_slice_with_sender s x u64_prim ty values endpoints sender timestamp ≡ ok p
      → get_data_type s ty ≡ uint64
      → All IsU64 values
      → (data_as_u64 s x p ≡ ok values)
        × (p.ty ≡ ty)
        × (p.sender ≡ sender)
        × (p.endpoints ≡ endpoints)
        × (p.timestamp ≡ timestamp)
  unfolding from_prim_le_slice_with_sender data_as_u64 as_le_bytes ensure_kind
  data_as_u64-from_prim_le_slice_with_sender ty timestamp values endpoints sender p e kind all =
      let size_of_element = data_type_size (get_data_type s ty) in
      let built = new s x ty endpoints sender timestamp (encode_slice_le u64_prim values) in
      let exact =
        check_exact (s.message_meta ty).element size_of_element (length values * size_of_element) in
      let (k1, e1) =
        fail_if_passed
          (same_kind (get_data_type s ty) bool
            || same_kind (get_data_type s ty) string
            || same_kind (get_data_type s ty) binary)
          bad_arg
          (fail_if (not (size_of_element == 8)) (type_mismatch size_of_element 8)
            >> (exact >> built))
          e in
      let (k2, e2) =
        fail_if_passed (not (size_of_element == 8)) (type_mismatch size_of_element 8)
          (exact >> built) e1 in
      let (u, k3, e3) = >>=-eq-ok exact (λ done. built) e2 in
      let (valid, parts, some_endpoint) =
        new-validate s x ty timestamp endpoints sender (encode_slice_le u64_prim values) p e3 in
      let size = length-encode_slice_le values in
      let whole : length values * 8 % 8 ≡ 0 = omega arith in
      let count : length values * 8 / 8 ≡ length values = omega arith in
      (
        rw (parts, kind, size, whole, count)
            (ap (λ z. ok z) (decode_chunks-encode_slice_le values all)),
        ap (λ q. q.ty) parts,
        ap (λ q. q.sender) parts,
        ap (λ q. q.endpoints) parts,
        ap (λ q. q.timestamp) parts,
      )

  bools_back : (values : List Bool) → map (λ b. not (b == 0)) (bool_bytes values) ≡ values
  bools_back [] = refl
  bools_back (true ∷ values) = ap (λ z. true ∷ z) (bools_back values)
  bools_back (false ∷ values) = ap (λ z. false ∷ z) (bools_back values)

  -- A packet built from a slice of Booleans reads back as that slice.
  pub data_as_bool-from_bool_slice :
      (ty timestamp : ℕ) (values : List Bool) (endpoints device : List ℕ) (p : Packet)
      → from_bool_slice s x ty values endpoints device timestamp ≡ ok p
      → data_as_bool s x p ≡ ok values
  unfolding from_bool_slice data_as_bool ensure_kind
  data_as_bool-from_bool_slice ty timestamp values endpoints device p e =
      let built = new s x ty endpoints device timestamp (bool_bytes values) in
      let exact = check_exact (s.message_meta ty).element 1 (length values) in
      let (k1, e1) =
        fail_if_passed (not (same_kind (get_data_type s ty) bool))
          (type_mismatch (data_type_size (get_data_type s ty)) 1) (exact >> built) e in
      let (u, k2, e2) = >>=-eq-ok exact (λ done. built) e1 in
      let (valid, parts, some_endpoint) =
        new-validate s x ty timestamp endpoints device (bool_bytes values) p e2 in
      let kind : same_kind (get_data_type s ty) bool ≡ true =
        not-false (same_kind (get_data_type s ty) bool) k1 in
      rw (parts, kind) (ap (λ z. ok z) (bools_back values))
