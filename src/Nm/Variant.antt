-- ===== src/Nm/Variant.antt =====
-- internal/nm/settings.go: the values of D-Bus and their readers. A signed number is its bit
-- pattern. A dictionary holds values; one of a type that no reader takes is `other`.
use better_nm.Prelude.{
  ℕ, ◌+◌, ◌%◌, String, List, [], Bool, Option, none, some, Assoc, lookup, ltb, str_eq, not, ◌&&◌,
  if◌then◌else◌,
}

pub data Value : Type 0 where
  text : String → Value
  bool : Bool → Value
  byte u16 u32 i32 u64 i64 : ℕ → Value
  path : String → Value
  paths strs : List String → Value
  bytes u32s : List ℕ → Value
  byte_lists : List (List ℕ) → Value
  str_map : Assoc String → Value
  other : Value

-- `aa{sv}` holds dictionaries itself.
pub data Variant : Type 0 where
  one : Value → Variant
  dicts : List (Assoc Value) → Variant

-- One setting, a{sv}, and all settings of a profile, a{sa{sv}}
abbrev pub Props : Type 0
Props = Assoc Variant

abbrev pub SettingsDict : Type 0
SettingsDict = Assoc Props

-- A missing setting reads as an empty one, as a nil map does.
unfoldable pub section : String → SettingsDict → Props
section name s = elim (lookup name s) [ none ↦ [] | some m ↦ m ]

unfoldable pub value_at : String → Props → Option Value
value_at k m = elim (lookup k m) [
  | none ↦ none
  | some (one v) ↦ some v
  | some (dicts ds) ↦ some other
]

unfoldable pub as_str : Option Value → String
as_str (some (text s)) = s
as_str _ = ""

unfoldable pub as_bool : Option Value → Option Bool
as_bool (some (bool b)) = some b
as_bool _ = none

-- `uint32(v)` of each type
unfoldable pub as_u32 : Option Value → ℕ
as_u32 (some (u32 n)) = n
as_u32 (some (i32 n)) = n
as_u32 (some (u64 n)) = n % 4294967296
as_u32 (some (i64 n)) = n % 4294967296
as_u32 (some (u16 n)) = n
as_u32 (some (byte n)) = n
as_u32 _ = 0

-- `uint64(v)` of an int32 keeps the sign.
unfoldable extend_sign : ℕ → ℕ
extend_sign n = if ltb n 2147483648 then n else n + 18446744069414584320

unfoldable as_u64 : Option Value → ℕ
unfolding extend_sign
as_u64 (some (u64 n)) = n
as_u64 (some (i64 n)) = n
as_u64 (some (u32 n)) = n
as_u64 (some (i32 n)) = extend_sign n
as_u64 _ = 0

-- `int64(v)`, as a bit pattern
unfoldable as_i64 : Option Value → Option ℕ
unfolding extend_sign
as_i64 (some (i64 n)) = some n
as_i64 (some (i32 n)) = some (extend_sign n)
as_i64 (some (u32 n)) = some n
as_i64 (some (u64 n)) = some n
as_i64 _ = none

unfoldable as_u8 : Option Value → ℕ
as_u8 (some (byte n)) = n
as_u8 (some (u32 n)) = n % 256
as_u8 _ = 0

unfoldable as_path : Option Value → String
as_path (some (path p)) = p
as_path (some (text p)) = p
as_path _ = ""

unfoldable as_paths : Option Value → List String
as_paths (some (paths ps)) = ps
as_paths (some (strs ps)) = ps
as_paths _ = []

unfoldable pub as_strs : Option Value → List String
as_strs (some (strs ss)) = ss
as_strs _ = []

unfoldable as_str_map : Option Value → Assoc String
as_str_map (some (str_map m)) = m
as_str_map _ = []

-- `[]byte` of a text is given by `encode`.
unfoldable pub as_bytes : (String → List ℕ) → Option Value → List ℕ
as_bytes encode (some (bytes bs)) = bs
as_bytes encode (some (text s)) = encode s
as_bytes encode _ = []

unfoldable pub v_str : Props → String → String
unfolding as_str value_at
v_str m k = as_str (value_at k m)

unfoldable pub v_bool : Props → String → Option Bool
unfolding as_bool value_at
v_bool m k = as_bool (value_at k m)

unfoldable pub v_u32 : Props → String → ℕ
unfolding as_u32 value_at
v_u32 m k = as_u32 (value_at k m)

unfoldable pub v_u64 : Props → String → ℕ
unfolding as_u64 value_at
v_u64 m k = as_u64 (value_at k m)

unfoldable pub v_strs : Props → String → List String
unfolding as_strs value_at
v_strs m k = as_strs (value_at k m)

unfoldable pub v_str_map : Props → String → Assoc String
unfolding as_str_map value_at
v_str_map m k = as_str_map (value_at k m)

unfoldable pub v_dicts : Props → String → List (Assoc Value)
v_dicts m k = elim (lookup k m) [ none ↦ [] | some (one v) ↦ [] | some (dicts ds) ↦ ds ]

-- `realPath`
unfoldable pub real_path : String → Bool
real_path p = not (str_eq p "") && not (str_eq p "/")
