-- ===== src/Bus/Tests.antt =====
-- Witnesses for src/services/collision-validator.ts and src/services/resolver.ts: a serial card and a RAM
-- card beside a boot ROM.
use bitsby.Prelude.{
  All, ◌||◌, ℕ, ◌≡◌, ◌+◌, refl, true, false, Option, none, some, List, [], ◌∷◌, list_eq,
  if◌then◌else◌, length,
}
use bitsby.Bus.Profile.{ram, rom, i8080, MemoryRegion, Bundle, MachineProfile}
use bitsby.Bus.Validator.{claims_of}
use bitsby.Bus.Validation.{validate_profile}
use bitsby.Bus.Resolver.{resolved, MachineSpec, resolve_profile}
use bitsby.Bus.Memory.{Disjoint}
use bitsby.Bus.Config.{
  integer, string, pos, u8, enum, ConfigParamSpec, Setting, out_of_range, filled, invalid_settings,
  in_schema, resolve_card_instance_config,
}
use bitsby.Bus.InRange.{FromSchema, resolve_card_instance_config-FromSchema}
use bitsby.Bus.Sound.{Sound, validate_profile-Sound}
use bitsby.Bus.Resolved.{resolve_profile-Disjoint}

-- A configuration is a base: of the ports of the serial card, of the region of the RAM card.
abbrev serial : Bundle ℕ
serial = record { ports = λ c. c ∷ (c + 1) ∷ []; irq = λ c. some 2; memory = λ c. []; cpu = none }

abbrev ram_card : Bundle ℕ
ram_card = record {
  ports = λ c. [];
  irq = λ c. none;
  memory = λ c. record { id = b'm' ∷ []; base = c; size = 16; kind = ram } ∷ [];
  cpu = none;
}

abbrev bundles : List ℕ → Option (Bundle ℕ)
bundles ref =
    if list_eq ref (b's' ∷ [])
    then some serial
    else if list_eq ref (b'r' ∷ [])
    then some ram_card
    else none

abbrev boot : MemoryRegion
boot = record { id = b'b' ∷ []; base = 32; size = 8; kind = rom }

abbrev machine : ℕ → MachineProfile ℕ
machine base = record {
  cpu_kind = i8080;
  reset_vector = 32;
  memory = boot ∷ [];
  cards =
      record { id = b'1' ∷ []; ref = b's' ∷ []; config = 16 }
      ∷ record { id = b'2' ∷ []; ref = b'r' ∷ []; config = base }
      ∷ [];
}

refused_overlap : (validate_profile bundles (machine 20)).ok ≡ false
unfolding validate_profile
refused_overlap = refl

accepted : (validate_profile bundles (machine 0)).ok ≡ true
unfolding validate_profile
accepted = refl

no_warning : length (validate_profile bundles (machine 0)).warnings ≡ 0
unfolding validate_profile
no_warning = refl

validate_profile-Sound_example : Sound (boot ∷ []) (claims_of bundles (machine 0).cards)
validate_profile-Sound_example = validate_profile-Sound bundles (machine 0) accepted

abbrev spec : MachineSpec ℕ
spec = record {
  cpu_kind = i8080;
  reset_vector = 32;
  memory = boot ∷ record { id = b'2' ∷ b'/' ∷ b'm' ∷ []; base = 0; size = 16; kind = ram } ∷ [];
  cards =
      record { id = b'1' ∷ []; config = 16; ports = 16 ∷ 17 ∷ []; irq = some 2 }
      ∷ record { id = b'2' ∷ []; config = 0; ports = []; irq = none }
      ∷ [];
}

resolves : resolve_profile bundles (λ b c. some c) (machine 0) ≡ resolved spec
unfolding resolve_profile
resolves = refl

resolve_profile-Disjoint_example : Disjoint spec.memory
resolve_profile-Disjoint_example =
    resolve_profile-Disjoint bundles (λ b c. some c) (machine 0) spec
      ((λ b e. refl), ((λ b e. refl), tt)) accepted resolves

abbrev base_spec : ConfigParamSpec
base_spec = record {
  name = b'b' ∷ [];
  type = u8;
  default = integer 16;
  min = none;
  max = some (pos 254);
  allowed = [];
}

abbrev mode_spec : ConfigParamSpec
mode_spec = record {
  name = b'm' ∷ [];
  type = enum;
  default = string (b'a' ∷ []);
  min = none;
  max = none;
  allowed = string (b'a' ∷ []) ∷ string (b'c' ∷ []) ∷ [];
}

abbrev catalog : List ℕ → Option (List ConfigParamSpec)
catalog ref = some (base_spec ∷ mode_spec ∷ [])

abbrev given : List Setting
given = record { key = b'b' ∷ []; value = integer 32 } ∷ []

abbrev filled_in : List Setting
filled_in =
    record { key = b'b' ∷ []; value = integer 32 }
    ∷ record { key = b'm' ∷ []; value = string (b'a' ∷ []) }
    ∷ []

fills : resolve_card_instance_config (λ n. false) catalog (b's' ∷ []) given ≡ filled filled_in
unfolding resolve_card_instance_config
fills = refl

refuses :
    resolve_card_instance_config
      (λ n. false)
      catalog
      (b's' ∷ [])
      (record { key = b'b' ∷ []; value = integer 255 } ∷ [])
    ≡ invalid_settings (b's' ∷ []) (out_of_range (b'b' ∷ []) (pos 0) (pos 254) (integer 255) ∷ [])
unfolding resolve_card_instance_config
refuses = refl

resolve_card_instance_config-FromSchema_example :
    FromSchema (λ n. false) (base_spec ∷ mode_spec ∷ []) given filled_in
    × All (λ s. in_schema s.key (base_spec ∷ mode_spec ∷ []) || false ≡ true) given
resolve_card_instance_config-FromSchema_example =
    resolve_card_instance_config-FromSchema (λ n. false) catalog (b's' ∷ [])
      (base_spec ∷ mode_spec ∷ []) given filled_in refl fills
