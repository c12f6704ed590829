-- ===== src/Schema.antt =====
-- Message metadata of src/lib.rs. The enums DataType and DataEndpoint and the tables behind them are
-- generated at build time from a JSON schema, so they are a parameter: a discriminant is a number,
-- and the tables are functions of it.
use sedsprintf_rs.Prelude.{ℕ, ◌-◌, Bool, true, false, Option, List, ltb, if◌then◌else◌}

pub data MessageDataType : Type 0 where
  float64 float32 uint8 uint16 uint32 uint64 uint128 : MessageDataType
  int8 int16 int32 int64 int128 bool string binary no_data : MessageDataType

pub data MessageElement : Type 0 where
  static : ℕ → MessageDataType → MessageElement
  dynamic : MessageDataType → MessageElement

pub data ReliableMode : Type 0 where
  none ordered unordered : ReliableMode

pub record MessageMeta : Type 0 where
  pub name : List ℕ
  pub element : MessageElement
  pub reliable : ReliableMode
  pub priority : ℕ

-- `DataType::COUNT`, `DataEndpoint::COUNT`, `get_message_meta` and the endpoints' names.
pub record Schema : Type 0 where
  pub type_count : ℕ
  pub endpoint_count : ℕ
  pub message_meta : ℕ → MessageMeta
  pub endpoint_name : ℕ → List ℕ

-- The defaults of src/config.rs.
abbrev pub static_string_length : ℕ
static_string_length = 1024

abbrev pub static_hex_length : ℕ
static_hex_length = 1024

unfoldable pub data_type_size : MessageDataType → ℕ
data_type_size float64 = 8
data_type_size float32 = 4
data_type_size uint8 = 1
data_type_size uint16 = 2
data_type_size uint32 = 4
data_type_size uint64 = 8
data_type_size uint128 = 16
data_type_size int8 = 1
data_type_size int16 = 2
data_type_size int32 = 4
data_type_size int64 = 8
data_type_size int128 = 16
data_type_size bool = 1
data_type_size string = static_string_length
data_type_size binary = static_hex_length
data_type_size no_data = 0

abbrev pub element_type : MessageElement → MessageDataType
element_type (static n dt) = dt
element_type (dynamic dt) = dt

module _ (s : Schema) where
  unfoldable pub get_data_type : ℕ → MessageDataType
  get_data_type ty = element_type (s.message_meta ty).element

  unfoldable pub is_reliable_type : ℕ → Bool
  is_reliable_type ty = elim (s.message_meta ty).reliable [ ReliableMode.none ↦ false | _ ↦ true ]

  -- `MAX_VALUE_DATA_TYPE` and `MAX_VALUE_DATA_ENDPOINT`.
  abbrev pub max_value_data_type : ℕ
  max_value_data_type = s.type_count - 1

  abbrev pub max_value_data_endpoint : ℕ
  max_value_data_endpoint = s.endpoint_count - 1

-- `try_enum_from_u32` at an enum with the given largest discriminant.
unfoldable pub try_enum_from_u32 : ℕ → ℕ → Option ℕ
try_enum_from_u32 max_value x = if ltb max_value x then Option.none else Option.some x
