-- ===== src/Packet.antt =====
-- `Packet` of src/packet.rs: construction with its checks, and the identifier used for deduplication.
-- The payload is the list of bytes that the packet's `StandardSmallPayload` holds.
pub mod Checks
pub mod Typed
use sedsprintf_rs.Prelude.{
  ℕ, ◌+◌, ◌*◌, ◌/◌, ◌%◌, ◌^◌, Bool, true, false, not, ◌||◌, List, [], ◌∷◌, ◌++◌, length, is_empty,
  ltb, ◌==◌, if◌then◌else◌, bit_xor, u64_mod, map,
}
use sedsprintf_rs.Error.{
  Result, ok, err, empty_endpoints, size_mismatch, invalid_utf8, ◌>>=◌, ◌>>◌, fail_if,
}
use sedsprintf_rs.Schema.{
  Schema, MessageDataType, float64, float32, uint8, uint16, uint32, uint64, uint128, int8, int16,
  int32, int64, int128, bool, string, binary, no_data, static, dynamic, data_type_size,
  get_data_type,
}
use sedsprintf_rs.External.{External}

pub record Packet : Type 0 where
  pub ty : ℕ
  pub data_size : ℕ
  pub sender : List ℕ
  pub endpoints : List ℕ
  pub timestamp : ℕ
  pub payload : List ℕ

unfoldable pub element_width : MessageDataType → ℕ
element_width uint8 = 1
element_width int8 = 1
element_width bool = 1
element_width uint16 = 2
element_width int16 = 2
element_width uint32 = 4
element_width int32 = 4
element_width float32 = 4
element_width uint64 = 8
element_width int64 = 8
element_width float64 = 8
element_width uint128 = 16
element_width int128 = 16
element_width string = 1
element_width binary = 1
element_width no_data = 0

-- The bytes up to the last that is not 0: `bytes[..end]` with `rposition(|b| b != 0)`.
unfoldable pub trim_nuls : List ℕ → List ℕ
trim_nuls [] = []
trim_nuls (b ∷ bs) = elim (trim_nuls bs) [
  | [] ↦ if b == 0 then [] else b ∷ []
  | c ∷ cs ↦ b ∷ c ∷ cs
]

-- `if end > 0 { from_utf8(..)? }`.
unfoldable pub check_text : External → List ℕ → Result (Unit {0})
check_text x [] = ok tt
check_text x (b ∷ bs) = fail_if (not (x.from_utf8 (b ∷ bs))) invalid_utf8

check_width : ℕ → ℕ → Result (Unit {0})
check_width w len = fail_if (w == 0 || not (len % w == 0)) (size_mismatch w len)

module _ (s : Schema) (x : External) where
  unfoldable pub validate_dynamic_len_and_content : ℕ → List ℕ → Result (Unit {0})
  unfolding check_width
  validate_dynamic_len_and_content ty bytes = elim (get_data_type s ty) [
    | string ↦ check_text x (trim_nuls bytes)
    | binary ↦ ok tt
    | dt ↦ check_width (element_width dt) (length bytes)
  ]

  -- The check of a payload against the schema that `new` and `validate` share.
  unfoldable pub check_payload : ℕ → List ℕ → Result (Unit {0})
  check_payload ty payload = elim (s.message_meta ty).element [
    | static count dt ↦
        fail_if (not (length payload == count * data_type_size (get_data_type s ty)))
          (size_mismatch (count * data_type_size (get_data_type s ty)) (length payload))
    | dynamic dt ↦ validate_dynamic_len_and_content ty payload
  ]

  unfoldable pub new : ℕ → List ℕ → List ℕ → ℕ → List ℕ → Result Packet
  new ty endpoints sender timestamp payload = do
    fail_if (is_empty endpoints) empty_endpoints
    check_payload ty payload
    ok (record {
      ty = ty;
      data_size = length payload;
      sender = sender;
      endpoints = endpoints;
      timestamp = timestamp;
      payload = payload;
    })

  unfoldable pub validate : Packet → Result (Unit {0})
  validate p = do
    fail_if (is_empty p.endpoints) empty_endpoints
    fail_if (not (length p.payload == p.data_size)) (size_mismatch p.data_size (length p.payload))
    check_payload p.ty p.payload

-- One byte of `hash_bytes_u64`.
hash_byte : ℕ → ℕ → ℕ
hash_byte h b = let mixed = bit_xor h b * 0x9E37_79B1 % u64_mod in bit_xor mixed (mixed / 2 ^ 27)

unfoldable pub hash_bytes_u64 : ℕ → List ℕ → ℕ
unfolding hash_byte
hash_bytes_u64 h [] = h
hash_bytes_u64 h (b ∷ bytes) = hash_bytes_u64 (hash_byte h b) bytes

-- `u64::to_le_bytes`, and `usize::to_le_bytes` on a 64-bit target.
unfoldable pub to_le_bytes64 : ℕ → List ℕ
to_le_bytes64 v =
    (v % 256)
    ∷ (v / 2 ^ 8 % 256)
    ∷ (v / 2 ^ 16 % 256)
    ∷ (v / 2 ^ 24 % 256)
    ∷ (v / 2 ^ 32 % 256)
    ∷ (v / 2 ^ 40 % 256)
    ∷ (v / 2 ^ 48 % 256)
    ∷ (v / 2 ^ 56 % 256)
    ∷ []

abbrev pub hash_seed : ℕ
hash_seed = 0x9E37_79B9_7F4A_7C15

module _ (s : Schema) where
  -- The loop over the endpoints' names.
  unfoldable pub hash_endpoints : ℕ → List ℕ → ℕ
  hash_endpoints h [] = h
  hash_endpoints h (ep ∷ eps) = hash_endpoints (hash_bytes_u64 h (s.endpoint_name ep)) eps

  unfoldable pub packet_id : Packet → ℕ
  packet_id p =
      let h = hash_bytes_u64 hash_seed p.sender in
      let h = hash_bytes_u64 h (s.message_meta p.ty).name in
      let h = hash_endpoints h p.endpoints in
      let h = hash_bytes_u64 h (to_le_bytes64 p.timestamp) in
      let h = hash_bytes_u64 h (to_le_bytes64 p.data_size) in hash_bytes_u64 h p.payload
