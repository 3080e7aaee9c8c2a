-- ===== src/Types.antt =====
-- The public types of include/maelys/json.h: result codes, profiles, value types, limits, and the
-- macros for the defaults and ceilings. `size_t` and `uint64_t` are 64 bits wide.
use maelys_json.Base.{ℕ, ◌-◌, ◌^◌}

-- `maelys_json_result_t` without MAELYS_JSON_OK, which is the value case of an `Outcome`, or `none`
-- where the code keeps a result in a field.
pub data Error : Type 0 where
  argument memory limit syntax utf8 duplicate_key type range state not_found not_integer io : Error

-- `maelys_json_profile_t`
pub data Profile : Type 0 where
  rfc8259 contract_ascii rfc8259_last_wins : Profile

-- `maelys_json_type_t`
pub data Kind : Type 0 where
  none_kind object array string number boolean null : Kind

-- `maelys_json_limits_t`
pub record Limits : Type 0 where
  pub maximum_bytes : ℕ
  pub maximum_depth : ℕ
  pub maximum_tokens : ℕ

abbrev pub size_max : ℕ
size_max = 2 ^ 64 - 1

abbrev pub u64_max : ℕ
u64_max = 2 ^ 64 - 1

abbrev pub i64_max : ℕ
i64_max = 2 ^ 63 - 1

abbrev pub default_maximum_bytes : ℕ
default_maximum_bytes = 65535

abbrev pub default_maximum_depth : ℕ
default_maximum_depth = 32

abbrev pub default_maximum_tokens : ℕ
default_maximum_tokens = 8192

-- MAELYS_JSON_MAXIMUM_DEPTH
abbrev pub depth_ceiling : ℕ
depth_ceiling = 256

-- MAELYS_JSON_MAXIMUM_NUMBER_TEXT
abbrev pub maximum_number_text : ℕ
maximum_number_text = 64

-- MAELYS_JSON_VALUE_NONE is `none` of an `Option ℕ`: no index of a token reaches SIZE_MAX.
