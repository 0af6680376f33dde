-- ===== src/Bus/Resolver.antt =====
-- src/services/resolver.ts: `resolveProfile`. The clock, the card factories and the digests of the
-- catalog are passed on and left out. `sim.withDefaults` is a parameter, with `none` for a
-- throw.
use bitsby.Prelude.{ℕ, Option, none, some, List, [], ◌∷◌, ◌++◌, if◌then◌else◌}
use bitsby.Bus.Profile.{
  MemoryRegion, CpuKind, Bundle, ProfileCard, MachineProfile, namespaced, has_id,
}

-- The two ServiceErrors: 404 for a missing bundle, 400 for a configuration.
pub data ServiceError : Type 0 where
  bundle_not_found : List ℕ → List ℕ → ServiceError
  invalid_config : List ℕ → List ℕ → ServiceError

pub data Resolution {ℓ} (A : Type ℓ) : Type ℓ where
  resolved : A → Resolution A
  refused : ServiceError → Resolution A

-- `CardSpec`: the card, its configuration, and the ports and the IRQ that it claims.
pub record CardSpec (Config : Type 0) : Type 0 where
  pub id : List ℕ
  pub config : Config
  pub ports : List ℕ
  pub irq : Option ℕ

pub record MachineSpec (Config : Type 0) : Type 0 where
  pub cpu_kind : CpuKind
  pub reset_vector : ℕ
  pub memory : List MemoryRegion
  pub cards : List (CardSpec Config)

-- The loop over `bundle.memory(cfg)`.
abbrev pub hoist : List ℕ → List MemoryRegion → List MemoryRegion → List MemoryRegion
hoist card_id [] memory = memory
hoist card_id (r ∷ regions) memory =
    let region = namespaced card_id r in
    hoist card_id regions (if has_id region.id memory then memory else memory ++ (region ∷ []))

-- `if (c.resetVector != null) resetVector = c.resetVector`
abbrev pub reset_after : Option ℕ → ℕ → ℕ
reset_after none reset = reset
reset_after (some r) reset = r

module _ {Config : Type 0} where
  abbrev pub seat_cpu :
      Option (Config → CpuKind × Option ℕ) → Config → MachineSpec Config → MachineSpec Config
  seat_cpu none cfg spec = spec
  seat_cpu (some cpu) cfg spec = record spec {
    cpu_kind = (cpu cfg).0;
    reset_vector = reset_after (cpu cfg).1 spec.reset_vector;
  }

  -- One card, with its bundle and its configuration.
  abbrev pub seat :
      ProfileCard Config → Bundle Config → Config → MachineSpec Config → MachineSpec Config
  seat inst bundle cfg spec = seat_cpu bundle.cpu cfg (record spec {
    cards =
        spec.cards
        ++ (record { id = inst.id; config = cfg; ports = bundle.ports cfg; irq = bundle.irq cfg }
            ∷ []);
    memory = hoist inst.id (bundle.memory cfg) spec.memory;
  })

  module _ (get_bundle : List ℕ → Option (Bundle Config))
      (with_defaults : Bundle Config → Config → Option Config) where
    abbrev pub configure :
        (MachineSpec Config → Resolution (MachineSpec Config))
        → ProfileCard Config
        → Bundle Config
        → MachineSpec Config
        → Option Config
        → Resolution (MachineSpec Config)
    configure continue inst bundle spec none = refused (invalid_config inst.ref inst.id)
    configure continue inst bundle spec (some cfg) = continue (seat inst bundle cfg spec)

    abbrev pub load :
        (MachineSpec Config → Resolution (MachineSpec Config))
        → ProfileCard Config
        → MachineSpec Config
        → Option (Bundle Config)
        → Resolution (MachineSpec Config)
    load continue inst spec none = refused (bundle_not_found inst.ref inst.id)
    load continue inst spec (some bundle) =
        configure continue inst bundle spec (with_defaults bundle inst.config)

    -- The loop over the cards.
    abbrev pub resolve_from :
        List (ProfileCard Config) → MachineSpec Config → Resolution (MachineSpec Config)
    resolve_from [] spec = resolved spec
    resolve_from (inst ∷ cards) spec = load (resolve_from cards) inst spec (get_bundle inst.ref)

unfoldable pub resolve_profile :
    {Config : Type 0}
    → (List ℕ → Option (Bundle Config))
    → (Bundle Config → Config → Option Config)
    → MachineProfile Config
    → Resolution (MachineSpec Config)
resolve_profile get_bundle with_defaults profile =
    resolve_from get_bundle with_defaults profile.cards (record {
      cpu_kind = profile.cpu_kind;
      reset_vector = profile.reset_vector;
      memory = profile.memory;
      cards = [];
    })
