-- ===== src/Bus/Config.antt =====
-- src/services/card-config.ts: `validateCardConfig` and `resolveCardInstanceConfig`. A value of a
-- configuration is what JSON gives; `inherited` says which names each object of JavaScript has
-- (`toString` and so on), since the source asks with `in`.
use bitsby.Prelude.{
  ℕ, Bool, true, false, ◌||◌, Option, none, some, List, [], ◌∷◌, ◌++◌, ◌==◌, ltb, length, list_eq,
  if◌then◌else◌,
}

-- `integer n` is n and `negative n` is -(n + 1), `fraction` another number (told apart by a tag),
-- `missing` is undefined or null, and `other` an object, a list or a truth value.
pub data Value : Type 0 where
  integer : ℕ → Value
  negative : ℕ → Value
  fraction : ℕ → Value
  string : List ℕ → Value
  missing : Value
  other : Value

-- A whole number: n, or -(n + 1).
pub data Whole : Type 0 where
  pos negsuc : ℕ → Whole

abbrev pub whole_value : Whole → Value
whole_value (pos n) = integer n
whole_value (negsuc n) = negative n

-- The comparison of two whole numbers, `<`.
abbrev pub below : Whole → Whole → Bool
below (pos a) (pos b) = ltb a b
below (pos a) (negsuc b) = false
below (negsuc a) (pos b) = true
below (negsuc a) (negsuc b) = ltb b a

-- A type that has no name here is checked like `u8`.
pub data ParamType : Type 0 where
  u8 u16 enum : ParamType

-- `ConfigParamSpec` under its name. A bound that is no whole number stands as the next whole number
-- within it: the same whole numbers are below it or above it.
pub record ConfigParamSpec : Type 0 where
  pub name : List ℕ
  pub type : ParamType
  pub default : Value
  pub min : Option Whole
  pub max : Option Whole
  pub allowed : List Value

pub record Setting : Type 0 where
  pub key : List ℕ
  pub value : Value

-- One constructor for each message.
pub data ConfigError : Type 0 where
  unknown_setting : List ℕ → ConfigError
  required : List ℕ → ConfigError
  not_allowed : List ℕ → Value → ConfigError
  not_integer : List ℕ → Value → ConfigError
  out_of_range : List ℕ → Whole → Whole → Value → ConfigError

pub record ConfigValidation : Type 0 where
  pub resolved : List Setting
  pub errors : List ConfigError

abbrev pub default_to : Option Whole → Whole → Whole
default_to none d = d
default_to (some n) d = n

abbrev pub width_of : ParamType → ℕ
width_of u8 = 0xff
width_of u16 = 0xffff
width_of enum = 0xff

-- `rangeFor`
abbrev pub range_min : ConfigParamSpec → Whole
range_min spec = default_to spec.min (pos 0)

abbrev pub range_max : ConfigParamSpec → Whole
range_max spec = default_to spec.max (pos (width_of spec.type))

-- Equality of `includes`
abbrev pub same_value : Value → Value → Bool
same_value (integer a) (integer b) = a == b
same_value (negative a) (negative b) = a == b
same_value (fraction a) (fraction b) = a == b
same_value (string a) (string b) = list_eq a b
same_value a b = false

abbrev pub includes : Value → List Value → Bool
includes v [] = false
includes v (w ∷ allowed) = if same_value w v then true else includes v allowed

abbrev pub in_schema : List ℕ → List ConfigParamSpec → Bool
in_schema key [] = false
in_schema key (spec ∷ schema) = if list_eq spec.name key then true else in_schema key schema

-- config[param], with `none` for a name that is not in it
abbrev pub setting_of : List ℕ → List Setting → Option Value
setting_of param [] = none
setting_of param (s ∷ config) =
    if list_eq s.key param then some s.value else setting_of param config

-- The result of resolveCardInstanceConfig, or its ServiceErrors: 404 and 400.
pub data Settings : Type 0 where
  filled : List Setting → Settings
  not_in_catalog : List ℕ → Settings
  invalid_settings : List ℕ → List ConfigError → Settings

abbrev pub settings_or_errors : List ℕ → ConfigValidation → Settings
settings_or_errors ref v =
    if length v.errors == 0 then filled v.resolved else invalid_settings ref v.errors

module _ (inherited : List ℕ → Bool) where
  -- The value that is checked: what is provided, or the default.
  abbrev pub provided : ConfigParamSpec → Option Value → Value
  provided spec (some v) = v
  provided spec none = if inherited spec.name then other else spec.default

  abbrev pub value_of : List Setting → ConfigParamSpec → Value
  value_of config spec = provided spec (setting_of spec.name config)

  -- The settings that are not in the schema.
  abbrev pub unknown_settings : List ConfigParamSpec → List Setting → List ConfigError
  unknown_settings schema [] = []
  unknown_settings schema (s ∷ config) =
      let rest = unknown_settings schema config in
      if in_schema s.key schema || inherited s.key then rest else unknown_setting s.key ∷ rest

  -- The checks of one value: an error, or the value.
  abbrev pub check_whole : ConfigParamSpec → Whole → Option ConfigError
  check_whole spec n =
      if below n (range_min spec) || below (range_max spec) n
      then some (out_of_range spec.name (range_min spec) (range_max spec) (whole_value n))
      else none

  abbrev pub check_number : ConfigParamSpec → Value → Option ConfigError
  check_number spec (integer n) = check_whole spec (pos n)
  check_number spec (negative n) = check_whole spec (negsuc n)
  check_number spec (fraction n) = some (not_integer spec.name (fraction n))
  check_number spec (string s) = some (not_integer spec.name (string s))
  check_number spec missing = some (required spec.name)
  check_number spec other = some (not_integer spec.name other)

  abbrev pub check_enum : ConfigParamSpec → Value → Option ConfigError
  check_enum spec missing = some (required spec.name)
  check_enum spec v = if includes v spec.allowed then none else some (not_allowed spec.name v)

  abbrev pub check_type : ParamType → ConfigParamSpec → Value → Option ConfigError
  check_type u8 spec v = check_number spec v
  check_type u16 spec v = check_number spec v
  check_type enum spec v = check_enum spec v

  abbrev pub check_value : ConfigParamSpec → Value → Option ConfigError
  check_value spec v = check_type spec.type spec v

  abbrev pub add_result :
      ConfigParamSpec → Value → Option ConfigError → ConfigValidation → ConfigValidation
  add_result spec v none rest = record rest {
    resolved = record { key = spec.name; value = v } ∷ rest.resolved;
  }
  add_result spec v (some e) rest = record rest { errors = e ∷ rest.errors }

  -- The loop over the schema.
  abbrev pub check_params : List ConfigParamSpec → List Setting → ConfigValidation
  check_params [] config = record { resolved = []; errors = [] }
  check_params (spec ∷ schema) config =
      add_result spec (value_of config spec) (check_value spec (value_of config spec))
        (check_params schema config)

  unfoldable pub validate_card_config : List ConfigParamSpec → List Setting → ConfigValidation
  validate_card_config schema config =
      let checked = check_params schema config in
      record checked { errors = unknown_settings schema config ++ checked.errors }

  abbrev pub resolve_with : List ℕ → List Setting → Option (List ConfigParamSpec) → Settings
  unfolding validate_card_config
  resolve_with ref config none = not_in_catalog ref
  resolve_with ref config (some schema) =
      settings_or_errors ref (validate_card_config schema config)

  -- With `catalog` the schemas of the card definitions.
  unfoldable pub resolve_card_instance_config :
      (List ℕ → Option (List ConfigParamSpec)) → List ℕ → List Setting → Settings
  unfolding validate_card_config
  resolve_card_instance_config catalog ref config = resolve_with ref config (catalog ref)
