-- ===== src/Error.antt =====
-- Errors of the crate: `TelemetryError` and `TelemetryResult` of src/lib.rs, as values.
pub mod Codes
use sedsprintf_rs.Prelude.{ℕ, String, Option, Bool, true, false, ◌≡◌, refl}

-- The messages are the source's static strings.
pub data TelemetryError : Type 0 where
  generic_error : Option String → TelemetryError
  invalid_type : TelemetryError
  size_mismatch : ℕ → ℕ → TelemetryError
  size_mismatch_error : TelemetryError
  empty_endpoints : TelemetryError
  timestamp_invalid : TelemetryError
  missing_payload : TelemetryError
  handler_error : String → TelemetryError
  bad_arg : TelemetryError
  serialize : String → TelemetryError
  deserialize : String → TelemetryError
  io : String → TelemetryError
  invalid_utf8 : TelemetryError
  type_mismatch : ℕ → ℕ → TelemetryError
  invalid_link_id : String → TelemetryError
  packet_too_large : String → TelemetryError

pub data Result {ℓ} (A : Type ℓ) : Type ℓ where
  ok : A → Result A
  err : TelemetryError → Result A

infixl 5 ◌>>◌ ◌>>=◌
-- The `?` operator.
abbrev pub ◌>>=◌ {ℓ κ} : {A : Type ℓ} {C : Type κ} → Result A → (A → Result C) → Result C
ok value >>= next = next value
err failure >>= next = err failure

abbrev pub ◌>>◌ {κ} : {C : Type κ} → Result (Unit {0}) → Result C → Result C
first >> next = first >>= λ done. next

-- `if failed { return Err(e) }`.
abbrev pub fail_if : Bool → TelemetryError → Result (Unit {0})
fail_if true e = err e
fail_if false e = ok tt

-- `ok_or(e)?`.
abbrev pub ok_or {ℓ} : {A : Type ℓ} → Option A → TelemetryError → Result A
ok_or Option.none e = err e
ok_or (Option.some a) e = ok a

-- A bind that succeeds had a first part that succeeds.
pub >>=-eq-ok {ℓ κ} :
    {A : Type ℓ} {C : Type κ} (first : Result A) (next : A → Result C) {last : C}
    → (first >>= next) ≡ ok last
    → (value : A) × (first ≡ ok value) × (next value ≡ ok last)
>>=-eq-ok (err failure) next e = cc
>>=-eq-ok (ok value) next e = (value, refl, e)

-- Past a guard, its condition does not hold.
pub fail_if_passed {κ} :
    {C : Type κ} (failed : Bool) (e : TelemetryError) (next : Result C) {last : C}
    → (fail_if failed e >> next) ≡ ok last
    → (failed ≡ false) × (next ≡ ok last)
fail_if_passed true e next h = cc
fail_if_passed false e next h = (refl, h)
