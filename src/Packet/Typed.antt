-- ===== src/Packet/Typed.antt =====
-- Typed payloads of src/packet.rs: packets from slices of numbers, and the readers of them.
pub mod RoundTrip
use sedsprintf_rs.Prelude.{
  ℕ, zero, suc, ◌+◌, ◌*◌, ◌/◌, ◌%◌, Bool, true, false, not, ◌||◌, List, [], ◌∷◌, ◌++◌, length, take,
  drop, map, ltb, leb, ◌==◌, if◌then◌else◌,
}
use sedsprintf_rs.Error.{
  Result, ok, err, size_mismatch, type_mismatch, bad_arg, invalid_utf8, ◌>>=◌, ◌>>◌, fail_if,
}
use sedsprintf_rs.Schema.{
  Schema, MessageDataType, MessageElement, float64, float32, uint8, uint16, uint32, uint64, uint128,
  int8, int16, int32, int64, int128, bool, string, binary, no_data, static, dynamic, data_type_size,
  get_data_type,
}
use sedsprintf_rs.External.{External}
use sedsprintf_rs.Packet.{Packet, new, trim_nuls, check_text, to_le_bytes64}

-- The data types, numbered, so that they can be compared.
abbrev pub kind_number : MessageDataType → ℕ
kind_number float64 = 0
kind_number float32 = 1
kind_number uint8 = 2
kind_number uint16 = 3
kind_number uint32 = 4
kind_number uint64 = 5
kind_number uint128 = 6
kind_number int8 = 7
kind_number int16 = 8
kind_number int32 = 9
kind_number int64 = 10
kind_number int128 = 11
kind_number bool = 12
kind_number string = 13
kind_number binary = 14
kind_number no_data = 15

abbrev pub same_kind : MessageDataType → MessageDataType → Bool
same_kind a b = kind_number a == kind_number b

-- A type of numbers: its size, and its bytes in the little-endian order, both ways.
pub record Prim (A : Type 0) : Type 0 where
  pub size : ℕ
  pub to_le : A → List ℕ
  pub from_le : List ℕ → A

-- `u64::from_le_bytes`, and the other unsigned types.
unfoldable pub from_le_bytes : List ℕ → ℕ
from_le_bytes [] = 0
from_le_bytes (b ∷ bytes) = b + 256 * from_le_bytes bytes

abbrev pub u64_prim : Prim ℕ
u64_prim = record { size = 8; to_le = to_le_bytes64; from_le = from_le_bytes }

-- The bytes of the values, one after the other.
unfoldable pub encode_slice_le : {A : Type 0} → Prim A → List A → List ℕ
encode_slice_le prim [] = []
encode_slice_le prim (v ∷ values) = prim.to_le v ++ encode_slice_le prim values

-- `chunks_exact`, as many as there are.
unfoldable pub decode_chunks : {A : Type 0} → Prim A → ℕ → List ℕ → List A
decode_chunks prim zero bytes = []
decode_chunks prim (suc count) bytes =
    prim.from_le (take prim.size bytes) ∷ decode_chunks prim count (drop prim.size bytes)

-- The exact size of a static element.
unfoldable pub check_exact : MessageElement → ℕ → ℕ → Result (Unit {0})
check_exact (static exact dt) element_size total_bytes =
    fail_if (not (total_bytes == exact * element_size))
      (size_mismatch (exact * element_size) total_bytes)
check_exact (dynamic dt) element_size total_bytes = ok tt

-- `Message<..>::Static(need)` of `from_no_data`.
unfoldable pub check_no_data : MessageElement → Result (Unit {0})
check_no_data (static need dt) = fail_if (not (need == 0)) (size_mismatch need 0)
check_no_data (dynamic dt) = ok tt

-- The text of a payload that is not empty.
unfoldable pub text_of : External → List ℕ → Result (List ℕ)
unfolding check_text
text_of x bytes = do check_text x bytes; ok bytes

abbrev pub bool_bytes : List Bool → List ℕ
bool_bytes values = map (λ b. if b then 1 else 0) values

module _ (s : Schema) (x : External) where
  -- With an explicit sender; `from_prim_le_slice` passes the device's identifier. The source copies each
  -- value's memory, and reverses the copy on a big-endian target: the value's little-endian bytes.
  unfoldable pub from_prim_le_slice_with_sender :
      {A : Type 0} → Prim A → ℕ → List A → List ℕ → List ℕ → ℕ → Result Packet
  from_prim_le_slice_with_sender prim ty values endpoints sender timestamp =
      let dt = get_data_type s ty in
      let element_size = data_type_size dt in
      let total_bytes = length values * element_size in
      do
        fail_if (same_kind dt bool || same_kind dt string || same_kind dt binary) bad_arg
        fail_if (not (element_size == prim.size)) (type_mismatch element_size prim.size)
        check_exact (s.message_meta ty).element element_size total_bytes
        new s x ty endpoints sender timestamp (encode_slice_le prim values)

  unfoldable pub from_bool_slice : ℕ → List Bool → List ℕ → List ℕ → ℕ → Result Packet
  from_bool_slice ty values endpoints device timestamp = do
    fail_if (not (same_kind (get_data_type s ty) bool))
        (type_mismatch (data_type_size (get_data_type s ty)) 1)
    check_exact (s.message_meta ty).element 1 (length values)
    new s x ty endpoints device timestamp (bool_bytes values)

  unfoldable pub from_str_slice : ℕ → List ℕ → List ℕ → List ℕ → ℕ → Result Packet
  from_str_slice ty text endpoints device timestamp = do
    fail_if (not (same_kind (get_data_type s ty) string))
        (type_mismatch (data_type_size (get_data_type s ty)) 1)
    new s x ty endpoints device timestamp text

  unfoldable pub from_no_data : ℕ → List ℕ → List ℕ → ℕ → Result Packet
  from_no_data ty endpoints device timestamp = do
    check_no_data (s.message_meta ty).element
    new s x ty endpoints device timestamp []

  unfoldable pub ensure_kind : Packet → MessageDataType → Result (Unit {0})
  ensure_kind p expected =
      fail_if (not (same_kind (get_data_type s p.ty) expected))
        (type_mismatch (data_type_size expected) (data_type_size (get_data_type s p.ty)))

  -- `_as_le_bytes`.
  unfoldable pub as_le_bytes : {A : Type 0} → Prim A → Packet → MessageDataType → Result (List A)
  as_le_bytes prim p expected_kind = do
    ensure_kind p expected_kind
    fail_if (not (length p.payload % prim.size == 0))
        (size_mismatch (length p.payload / prim.size * prim.size) (length p.payload))
    ok (decode_chunks prim (length p.payload / prim.size) p.payload)

  unfoldable pub data_as_u64 : Packet → Result (List ℕ)
  data_as_u64 p = as_le_bytes u64_prim p uint64

  unfoldable pub data_as_bool : Packet → Result (List Bool)
  data_as_bool p = do ensure_kind p bool; ok (map (λ b. not (b == 0)) p.payload)

  unfoldable pub data_as_string : Packet → Result (List ℕ)
  data_as_string p = do ensure_kind p string; text_of x (trim_nuls p.payload)

  unfoldable pub data_as_binary : Packet → Result (List ℕ)
  data_as_binary p = do ensure_kind p binary; ok p.payload
