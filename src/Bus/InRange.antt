-- ===== src/Bus/InRange.antt =====
-- src/services/card-config.ts: the settings that are accepted.
use mathlib.Core.Bool.{false≢true}
use mathlib.Core.Path.{subst}
use mathlib.Core.Option.{none-ne-some}
use bitsby.Prelude.{
  ℕ, suc, ◌≤◌, ◌≡◌, refl, sym, ap, ◌∙◌, Bool, true, false, ◌||◌, Option, none, some, List, [], ◌∷◌,
  map, ◌==◌, length, length-append, if◌then◌else◌, Bool-cases, inl, inr, arith, All,
}
use bitsby.Bus.Config.{
  Value, integer, negative, fraction, string, missing, other, ParamType, u8, u16, enum,
  ConfigParamSpec, Setting, ConfigError, ConfigValidation, Whole, pos, negsuc, whole_value, below,
  range_min, range_max, in_schema, includes, value_of, unknown_settings, check_whole, check_number,
  check_enum, check_type, check_value, add_result, check_params, validate_card_config, Settings,
  filled, not_in_catalog, invalid_settings, resolve_with, resolve_card_instance_config,
}

-- What a schema allows: a whole number of its range, or one of the listed values.
abbrev pub AtMost : Whole → Whole → Type 0
AtMost (pos a) (pos b) = a ≤ b
AtMost (pos a) (negsuc b) = ⊥
AtMost (negsuc a) (pos b) = Unit
AtMost (negsuc a) (negsuc b) = b ≤ a

abbrev pub Number : ConfigParamSpec → Value → Type 0
Number spec v =
    (n : Whole) × (v ≡ whole_value n) × AtMost (range_min spec) n × AtMost n (range_max spec)

below-AtMost : (a b : Whole) → below b a ≡ false → AtMost a b
below-AtMost (pos a) (pos b) h = ground arith
below-AtMost (pos a) (negsuc b) h = absurd (false≢true (sym h))
below-AtMost (negsuc a) (pos b) h = tt
below-AtMost (negsuc a) (negsuc b) h = ground arith

in_range : (a b : Bool) → (a || b) ≡ false → (a ≡ false) × (b ≡ false)
in_range false false h = (refl, refl)
in_range false true h = absurd (false≢true (sym h))
in_range true b h = absurd (false≢true (sym h))

abbrev pub AllowedBy : ParamType → ConfigParamSpec → Value → Type 0
AllowedBy u8 spec v = Number spec v
AllowedBy u16 spec v = Number spec v
AllowedBy enum spec v = includes v spec.allowed ≡ true

abbrev pub Allowed : ConfigParamSpec → Value → Type 0
Allowed spec v = AllowedBy spec.type spec v

module _ (inherited : List ℕ → Bool) where
  check_whole-Number :
      (spec : ConfigParamSpec) (n : Whole)
      → check_whole inherited spec n ≡ none
      → Number spec (whole_value n)
  check_whole-Number spec n h =
      let a = below n (range_min spec) in
      let b = below (range_max spec) n in
      elim (Bool-cases (a || b)) [
        | inl k ↦ absurd (none-ne-some _ (sym (rw k at h)))
        | inr k ↦
            let (k₁, k₂) = in_range a b k in
            (n, refl, below-AtMost (range_min spec) n k₁, below-AtMost n (range_max spec) k₂)
      ]

  check_number-Number :
      (spec : ConfigParamSpec) (v : Value) → check_number inherited spec v ≡ none → Number spec v
  check_number-Number spec (integer n) h = check_whole-Number spec (pos n) h
  check_number-Number spec (negative n) h = check_whole-Number spec (negsuc n) h
  check_number-Number spec (fraction n) h = absurd (none-ne-some _ (sym h))
  check_number-Number spec (string s) h = absurd (none-ne-some _ (sym h))
  check_number-Number spec missing h = absurd (none-ne-some _ (sym h))
  check_number-Number spec other h = absurd (none-ne-some _ (sym h))

  listed : (b : Bool) (e : ConfigError) → (if b then none else some e) ≡ none → b ≡ true
  listed true e h = refl
  listed false e h = absurd (none-ne-some e (sym h))

  check_enum-listed :
      (spec : ConfigParamSpec) (v : Value)
      → check_enum inherited spec v ≡ none
      → includes v spec.allowed ≡ true
  check_enum-listed spec missing h = absurd (none-ne-some _ (sym h))
  check_enum-listed spec (integer n) h = listed (includes (integer n) spec.allowed) _ h
  check_enum-listed spec (negative n) h = listed (includes (negative n) spec.allowed) _ h
  check_enum-listed spec (fraction n) h = listed (includes (fraction n) spec.allowed) _ h
  check_enum-listed spec (string s) h = listed (includes (string s) spec.allowed) _ h
  check_enum-listed spec other h = listed (includes other spec.allowed) _ h

  check_type-Allowed :
      (t : ParamType) (spec : ConfigParamSpec) (v : Value)
      → check_type inherited t spec v ≡ none
      → AllowedBy t spec v
  check_type-Allowed u8 spec v h = check_number-Number spec v h
  check_type-Allowed u16 spec v h = check_number-Number spec v h
  check_type-Allowed enum spec v h = check_enum-listed spec v h

  abbrev pub FromSchema : List ConfigParamSpec → List Setting → List Setting → Type 0
  FromSchema schema config settings =
      (settings
        ≡ map (λ spec. record { key = spec.name; value = value_of inherited config spec }) schema)
      × All (λ spec. Allowed spec (value_of inherited config spec)) schema

  added :
      (spec : ConfigParamSpec) (schema : List ConfigParamSpec) (config : List Setting)
      (e : Option ConfigError) (rest : ConfigValidation)
      → check_value inherited spec (value_of inherited config spec) ≡ e
      → (length rest.errors ≡ 0 → FromSchema schema config rest.resolved)
      → length (add_result inherited spec (value_of inherited config spec) e rest).errors ≡ 0
      → FromSchema
          (spec ∷ schema)
          config
          (add_result inherited spec (value_of inherited config spec) e rest).resolved
  added spec schema config none rest checked more h =
      let tail = more h in
      (
        ap (λ l. record { key = spec.name; value = value_of inherited config spec } ∷ l) tail.0,
        (check_type-Allowed spec.type spec (value_of inherited config spec) checked, tail.1),
      )
  added spec schema config (some e) rest checked more h = absurd (omega (arith, h))

  check_params-FromSchema :
      (schema : List ConfigParamSpec) (config : List Setting)
      → length (check_params inherited schema config).errors ≡ 0
      → FromSchema schema config (check_params inherited schema config).resolved
  check_params-FromSchema [] config h = (refl, tt)
  check_params-FromSchema (spec ∷ schema) config h =
      added spec schema config (check_value inherited spec (value_of inherited config spec))
        (check_params inherited schema config) refl (check_params-FromSchema schema config) h

  unknown_settings-All :
      (schema : List ConfigParamSpec) (config : List Setting)
      → length (unknown_settings inherited schema config) ≡ 0
      → All (λ s. in_schema s.key schema || inherited s.key ≡ true) config
  unknown_settings-All schema [] h = tt
  unknown_settings-All schema (s ∷ config) h =
      elim (Bool-cases (in_schema s.key schema || inherited s.key)) [
        | inl k ↦ (k, unknown_settings-All schema config (rw k at h))
        | inr k ↦
            let h' : suc (length (unknown_settings inherited schema config)) ≡ 0 = (rw k at h) in
            absurd (omega (arith, h'))
      ]

filled-injective : (a b : List Setting) → filled a ≡ filled b → a ≡ b
filled-injective a b h = ap (settings_or a) h
  where
    settings_or : List Setting → Settings → List Setting
    settings_or d (filled s) = s
    settings_or d (not_in_catalog r) = d
    settings_or d (invalid_settings r e) = d

abbrev is_filled : Settings → Bool
is_filled (filled s) = true
is_filled (not_in_catalog r) = false
is_filled (invalid_settings r e) = false

-- Settings that resolveCardInstanceConfig accepts for a card of the catalog are, for each
-- parameter of the card's schema in its order, the value provided or the default, and this is
-- a whole number of the parameter's range or one of the values of the enumeration; each setting
-- provided is in the schema or has a name that every object inherits.
pub resolve_card_instance_config-FromSchema :
    (inherited : List ℕ → Bool) (catalog : List ℕ → Option (List ConfigParamSpec)) (ref : List ℕ)
    (schema : List ConfigParamSpec) (config settings : List Setting)
    → catalog ref ≡ some schema
    → resolve_card_instance_config inherited catalog ref config ≡ filled settings
    → FromSchema inherited schema config settings
      × All (λ s. in_schema s.key schema || inherited s.key ≡ true) config
unfolding resolve_card_instance_config validate_card_config
resolve_card_instance_config-FromSchema inherited catalog ref schema config settings known h =
    let v = validate_card_config inherited schema config in
    let l =
      length-append (unknown_settings inherited schema config)
        (check_params inherited schema config).errors in
    let h' : resolve_with inherited ref config (some schema) ≡ filled settings =
      ap (resolve_with inherited ref config) (sym known) ∙ h in
    elim (Bool-cases (length v.errors == 0)) [
      | inl k ↦
          let none_wrong : length v.errors ≡ 0 = ground arith in
          let same : v.resolved ≡ settings = filled-injective v.resolved settings (
            sym (ap (λ b. if b then filled v.resolved else invalid_settings ref v.errors) k)
            ∙ h') in
          (
            subst (FromSchema inherited schema config) same
                (check_params-FromSchema inherited schema config (omega (arith, none_wrong, l))),
            unknown_settings-All inherited schema config (omega (arith, none_wrong, l)),
          )
      | inr k ↦ absurd (
          false≢true (
            ap is_filled (
              sym (ap (λ b. if b then filled v.resolved else invalid_settings ref v.errors) k)
              ∙ h')))
    ]
