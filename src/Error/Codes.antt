-- ===== src/Error/Codes.antt =====
-- Numeric error codes of src/lib.rs: `TelemetryErrorCode`, and the conversion that the C interface
-- uses to turn a number back into a code.
use sedsprintf_rs.Prelude.{
  ℕ, zero, suc, Bool, true, false, ◌||◌, Option, none, some, ◌≡◌, refl, if◌then◌else◌,
}
use sedsprintf_rs.Prelude.Int.{ℤ, pos, negsuc, ltb_ℤ}
use sedsprintf_rs.Error.{TelemetryError}

pub data TelemetryErrorCode : Type 0 where
  generic_error invalid_type size_mismatch size_mismatch_error : TelemetryErrorCode
  empty_endpoints timestamp_invalid missing_payload handler_error : TelemetryErrorCode
  bad_arg serialize deserialize io : TelemetryErrorCode
  invalid_utf8 type_mismatch invalid_link_id packet_too_large : TelemetryErrorCode

unfoldable pub to_error_code : TelemetryError → TelemetryErrorCode
to_error_code (TelemetryError.generic_error m) = generic_error
to_error_code TelemetryError.invalid_type = invalid_type
to_error_code (TelemetryError.size_mismatch e g) = size_mismatch
to_error_code TelemetryError.size_mismatch_error = size_mismatch_error
to_error_code TelemetryError.empty_endpoints = empty_endpoints
to_error_code TelemetryError.timestamp_invalid = timestamp_invalid
to_error_code TelemetryError.missing_payload = missing_payload
to_error_code (TelemetryError.handler_error m) = handler_error
to_error_code TelemetryError.bad_arg = bad_arg
to_error_code (TelemetryError.serialize m) = serialize
to_error_code (TelemetryError.deserialize m) = deserialize
to_error_code (TelemetryError.io m) = io
to_error_code TelemetryError.invalid_utf8 = invalid_utf8
to_error_code (TelemetryError.type_mismatch e g) = type_mismatch
to_error_code (TelemetryError.invalid_link_id m) = invalid_link_id
to_error_code (TelemetryError.packet_too_large m) = packet_too_large

-- The discriminant, `code as i32`; `negsuc n` is -(n + 1).
unfoldable pub discriminant : TelemetryErrorCode → ℤ
discriminant generic_error = negsuc 1
discriminant invalid_type = negsuc 2
discriminant size_mismatch = negsuc 3
discriminant size_mismatch_error = negsuc 4
discriminant empty_endpoints = negsuc 5
discriminant timestamp_invalid = negsuc 6
discriminant missing_payload = negsuc 7
discriminant handler_error = negsuc 8
discriminant bad_arg = negsuc 9
discriminant serialize = negsuc 10
discriminant deserialize = negsuc 11
discriminant io = negsuc 12
discriminant invalid_utf8 = negsuc 13
discriminant type_mismatch = negsuc 14
discriminant invalid_link_id = negsuc 15
discriminant packet_too_large = negsuc 16

-- The unsafe read of an `i32` as the enum; `none` where no variant has that discriminant.
read_code : ℕ → Option TelemetryErrorCode
read_code zero = none
read_code (suc zero) = some generic_error
read_code (suc (suc zero)) = some invalid_type
read_code (suc (suc (suc zero))) = some size_mismatch
read_code (suc (suc (suc (suc zero)))) = some size_mismatch_error
read_code (suc (suc (suc (suc (suc zero))))) = some empty_endpoints
read_code (suc (suc (suc (suc (suc (suc zero)))))) = some timestamp_invalid
read_code (suc (suc (suc (suc (suc (suc (suc zero))))))) = some missing_payload
read_code (suc (suc (suc (suc (suc (suc (suc (suc n)))))))) = read_high n
  where
    read_high : ℕ → Option TelemetryErrorCode
    read_high zero = some handler_error
    read_high (suc zero) = some bad_arg
    read_high (suc (suc zero)) = some serialize
    read_high (suc (suc (suc zero))) = some deserialize
    read_high (suc (suc (suc (suc zero)))) = some io
    read_high (suc (suc (suc (suc (suc zero))))) = some invalid_utf8
    read_high (suc (suc (suc (suc (suc (suc zero)))))) = some type_mismatch
    read_high (suc (suc (suc (suc (suc (suc (suc zero))))))) = some invalid_link_id
    read_high (suc (suc (suc (suc (suc (suc (suc (suc zero)))))))) = some packet_too_large
    read_high (suc (suc (suc (suc (suc (suc (suc (suc (suc n))))))))) = none

read_enum : ℤ → Option TelemetryErrorCode
unfolding read_code
read_enum (pos n) = none
read_enum (negsuc n) = read_code n

-- `TelemetryErrorCode::MAX` and `TelemetryErrorCode::MIN`.
abbrev pub max_code : ℤ
max_code = negsuc 2

abbrev pub min_code : ℤ
min_code = negsuc 12

unfoldable pub try_from_i32 : ℤ → Option TelemetryErrorCode
unfolding read_enum
try_from_i32 x = if ltb_ℤ x min_code || ltb_ℤ max_code x then none else read_enum x

-- The codes that the range [MIN, MAX] leaves out.
abbrev pub is_lost : TelemetryErrorCode → Bool
is_lost generic_error = true
is_lost invalid_utf8 = true
is_lost type_mismatch = true
is_lost invalid_link_id = true
is_lost packet_too_large = true
is_lost c = false

-- The number of an error's code converts back to that code, but for the five codes outside the
-- range from MIN to MAX (generic error, invalid UTF-8, type mismatch, invalid link id, packet too
-- large), whose numbers convert to nothing.
pub try_from_i32-discriminant :
    (e : TelemetryError)
    → try_from_i32 (discriminant (to_error_code e))
      ≡ (if is_lost (to_error_code e) then none else some (to_error_code e))
unfolding try_from_i32 discriminant to_error_code
try_from_i32-discriminant (TelemetryError.generic_error m) = refl
try_from_i32-discriminant _ = refl
