-- ===== src/Bus/Profile.antt =====
-- src/services/resolver.ts, bundle-registry.ts and collision-validator.ts: profiles, card bundles, and
-- what a card claims on the bus. An id or a ref is the list of its character codes. A bundle is
-- code of the 8sim library: its functions of a configuration are fields.
use bitsby.Prelude.{ℕ, Bool, true, false, Option, List, [], ◌∷◌, ◌++◌, list_eq, if◌then◌else◌}

pub data RegionKind : Type 0 where
  ram rom mmio : RegionKind

-- `MemoryRegionSpec`, without the image
pub record MemoryRegion : Type 0 where
  pub id : List ℕ
  pub base : ℕ
  pub size : ℕ
  pub kind : RegionKind

pub data CpuKind : Type 0 where
  i8080 z80 : CpuKind

-- `SeedBundleRuntime`: `claims(config)`, `memory(config)`, with no region for a card without one,
-- and `cpu(config)` of a processor card.
pub record Bundle (Config : Type 0) : Type 0 where
  pub ports : Config → List ℕ
  pub irq : Config → Option ℕ
  pub memory : Config → List MemoryRegion
  pub cpu : Option (Config → CpuKind × Option ℕ)

pub record ProfileCard (Config : Type 0) : Type 0 where
  pub id : List ℕ
  pub ref : List ℕ
  pub config : Config

pub record MachineProfile (Config : Type 0) : Type 0 where
  pub cpu_kind : CpuKind
  pub reset_vector : ℕ
  pub memory : List MemoryRegion
  pub cards : List (ProfileCard Config)

pub record CardClaim : Type 0 where
  pub card_id : List ℕ
  pub ref : List ℕ
  pub ports : List ℕ
  pub irq : Option ℕ
  pub memory : List MemoryRegion
  pub is_cpu : Bool
  pub cpu_reset : Option ℕ

-- `${c.id}/${r.id}`
abbrev pub namespaced : List ℕ → MemoryRegion → MemoryRegion
namespaced card_id r = record r { id = card_id ++ (b'/' ∷ r.id) }

-- Whether some region has an id.
abbrev pub has_id : List ℕ → List MemoryRegion → Bool
has_id id [] = false
has_id id (r ∷ regions) = if list_eq r.id id then true else has_id id regions
