-- ===== src/Packet/Checks.antt =====
-- What `Packet::new` lets through.
use sedsprintf_rs.Prelude.{ℕ, ◌≡◌, ◌≢◌, refl, true, List, [], ◌∷◌, length, is_empty, ◌↔◌, arith}
use sedsprintf_rs.Error.{ok, >>=-eq-ok}
use sedsprintf_rs.Schema.{Schema}
use sedsprintf_rs.External.{External}
use sedsprintf_rs.Packet.{Packet, new, validate, check_payload}

is_empty_iff {ℓ} : {A : Type ℓ} (xs : List A) → (is_empty xs ≡ true) ↔ (xs ≡ [])
is_empty_iff [] = (λ e. refl, λ e. refl)
is_empty_iff (x ∷ xs) = (λ e. cc, λ e. cc)

module _ (s : Schema) (x : External) where
  pub new_lem :
      (ty timestamp : ℕ) (endpoints sender payload : List ℕ)
      → endpoints ≢ []
      → check_payload s x ty payload ≡ ok tt
      → new s x ty endpoints sender timestamp payload
        ≡ ok (record {
          ty = ty;
          data_size = length payload;
          sender = sender;
          endpoints = endpoints;
          timestamp = timestamp;
          payload = payload;
        })
  unfolding new
  new_lem ty timestamp [] sender payload h c = absurd (h refl)
  new_lem ty timestamp (ep ∷ eps) sender payload h c = rw c (ground arith)

  -- A packet that `Packet::new` returns passes `Packet::validate`, has at least one endpoint, and
  -- carries its arguments with the size of the payload.
  pub new-validate :
      (ty timestamp : ℕ) (endpoints sender payload : List ℕ) (p : Packet)
      → new s x ty endpoints sender timestamp payload ≡ ok p
      → (validate s x p ≡ ok tt)
        × (p ≡ record {
          ty = ty;
          data_size = length payload;
          sender = sender;
          endpoints = endpoints;
          timestamp = timestamp;
          payload = payload;
        })
        × (endpoints ≢ [])
  unfolding new validate
  new-validate ty timestamp [] sender payload p e = cc
  new-validate ty timestamp (ep ∷ eps) sender payload p e =
      let (u, checked, built) = >>=-eq-ok (check_payload s x ty payload) _ e in
      ground (arith, checked, built)

  -- What a validated packet has.
  pub validate_parts :
      (p : Packet)
      → validate s x p ≡ ok tt
      → (p.endpoints ≢ [])
        × (p.data_size ≡ length p.payload)
        × (check_payload s x p.ty p.payload ≡ ok tt)
  unfolding validate
  validate_parts p e = ground (arith, is_empty_iff p.endpoints)
