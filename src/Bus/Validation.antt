-- ===== src/Bus/Validation.antt =====
-- src/services/collision-validator.ts: `validateProfile`, from the collisions to the report.
use bitsby.Prelude.{
  ℕ, ◌+◌, Bool, true, false, ◌&&◌, ◌||◌, Option, none, some, List, [], ◌∷◌, ◌++◌, map, ◌==◌, ltb,
  leb, length, if◌then◌else◌,
}
use bitsby.Bus.Profile.{RegionKind, ram, rom, mmio, MemoryRegion, Bundle, MachineProfile, CardClaim}
use bitsby.Bus.Validator.{
  Collision, sort_by, set_from, claims_of, memory_collisions, self_collisions, port_keys, irq_keys,
  shared_by, emitted_memory, cpu_collisions, port, irq,
}

pub data BandSource : Type 0 where
  profile card : BandSource

pub record MemoryBand : Type 0 where
  pub region : MemoryRegion
  pub source : BandSource

pub data Where : Type 0 where
  not_rom unmapped : Where

-- The boot-vector advisory: the address, whether a CPU card set it, and where it points.
pub record Warning : Type 0 where
  pub addr : ℕ
  pub by_cpu_card : Bool
  pub target : Where

pub record ProfileValidation : Type 0 where
  pub ok : Bool
  pub collisions : List Collision
  pub claims : List CardClaim
  pub memory_map : List MemoryBand
  pub warnings : List Warning

-- The reset vector of the first CPU card that has one.
abbrev pub reset_or : Bool → Option ℕ → Option ℕ → Option ℕ
reset_or true (some r) rest = some r
reset_or true none rest = rest
reset_or false r rest = rest

abbrev pub card_reset : List CardClaim → Option ℕ
card_reset [] = none
card_reset (c ∷ claims) = reset_or c.is_cpu c.cpu_reset (card_reset claims)

abbrev pub is_rom : RegionKind → Bool
is_rom ram = false
is_rom rom = true
is_rom mmio = false

-- Whether an address lies in a region, and in a region of ROM.
abbrev pub in_region : ℕ → MemoryRegion → Bool
in_region a r = leb r.base a && ltb a (r.base + r.size)

abbrev pub in_map : ℕ → List MemoryBand → Bool
in_map a [] = false
in_map a (m ∷ memory_map) = in_region a m.region || in_map a memory_map

abbrev pub in_rom : ℕ → List MemoryBand → Bool
in_rom a [] = false
in_rom a (m ∷ memory_map) = (is_rom m.region.kind && in_region a m.region) || in_rom a memory_map

abbrev pub reset_and_source : Option ℕ → ℕ → ℕ × Bool
reset_and_source none reset_vector = (reset_vector, false)
reset_and_source (some r) reset_vector = (r, true)

abbrev pub boot_warnings : List MemoryBand → ℕ × Bool → List Warning
boot_warnings memory_map (reset, by_card) =
    if in_rom reset memory_map
    then []
    else record {
      addr = reset;
      by_cpu_card = by_card;
      target = if in_map reset memory_map then not_rom else unmapped;
    }
      ∷ []

-- All regions: those that the profile declares, and those of the cards that it does not override.
abbrev pub all_memory : List MemoryRegion → List CardClaim → List MemoryRegion
all_memory declared claims = declared ++ emitted_memory declared claims

abbrev pub all_collisions : List MemoryRegion → List CardClaim → List Collision
all_collisions declared claims =
    self_collisions claims
    ++ (shared_by port port_keys claims
        ++ (shared_by irq irq_keys claims
            ++ (memory_collisions (all_memory declared claims) ++ cpu_collisions claims)))

abbrev pub memory_map_of : List MemoryRegion → List CardClaim → List MemoryBand
memory_map_of declared claims =
    sort_by (λ m. m.region.base)
      (map (λ r. record { region = r; source = profile }) declared
        ++ map (λ r. record { region = r; source = card }) (emitted_memory declared claims))

-- A claim with each port once.
abbrev pub display_claim : CardClaim → CardClaim
display_claim c = record c { ports = sort_by (λ p. p) (set_from [] c.ports) }

-- The checks on the claims.
abbrev pub validate_claims : List MemoryRegion → ℕ → List CardClaim → ProfileValidation
validate_claims declared reset_vector claims =
    let collisions = all_collisions declared claims in
    let memory_map = memory_map_of declared claims in
    record {
      ok = length collisions == 0;
      collisions = collisions;
      claims = map display_claim claims;
      memory_map = memory_map;
      warnings = boot_warnings memory_map (reset_and_source (card_reset claims) reset_vector);
    }

unfoldable pub validate_profile :
    {Config : Type 0}
    → (List ℕ → Option (Bundle Config))
    → MachineProfile Config
    → ProfileValidation
validate_profile get_bundle content =
    validate_claims content.memory content.reset_vector (claims_of get_bundle content.cards)
