-- ===== src/Bus/Resolved.antt =====
-- src/services/resolver.ts and src/services/collision-validator.ts: the memory of the machine that an
-- accepted profile resolves to.
use mathlib.Core.Bool.{false≢true}
use mathlib.Core.Path.{subst}
use mathlib.Core.List.{append_assoc, append-nil}
use bitsby.Prelude.{
  ℕ, ◌≡◌, ◌≢◌, refl, sym, ap, ◌∙◌, Bool, true, false, not, Option, none, some, List, [], ◌∷◌, ◌++◌,
  map, filter, All,
}
use bitsby.Bus.Profile.{
  MemoryRegion, CpuKind, Bundle, ProfileCard, MachineProfile, namespaced, has_id,
}
use bitsby.Bus.Validator.{emitted_memory, claims_of}
use bitsby.Bus.Validation.{validate_profile}
use bitsby.Bus.Resolver.{
  Resolution, resolved, ServiceError, bundle_not_found, refused, MachineSpec, hoist, seat, seat_cpu,
  load, resolve_from, resolve_profile,
}
use bitsby.Bus.Memory.{
  Disjoint, Sub, none_left, Sub-Disjoint, Sub-append_left, Sub-append, hoist-Sub,
}
use bitsby.Bus.Sound.{validate_profile-Sound}

-- The machine of a resolution.
abbrev spec_of {ℓ} : {A : Type ℓ} → A → Resolution A → A
spec_of d (resolved s) = s
spec_of d (refused e) = d

resolved-injective : {A : Type 0} (x y : A) → resolved x ≡ resolved y → x ≡ y
resolved-injective x y h = ap (spec_of x) h

abbrev is_resolved {ℓ} : {A : Type ℓ} → Resolution A → Bool
is_resolved (resolved s) = true
is_resolved (refused e) = false

refused≢resolved : {A : Type 0} (x : A) (e : ServiceError) → refused e ≢ resolved x
refused≢resolved x e h = false≢true (ap is_resolved h)

module _ {Config : Type 0} (get_bundle : List ℕ → Option (Bundle Config))
    (with_defaults : Bundle Config → Config → Option Config) where
  -- A card with the defaults filled in, as profiles are saved.
  abbrev pub Filled : ProfileCard Config → Type 0
  Filled c =
      (bundle : Bundle Config)
      → get_bundle c.ref ≡ some bundle
      → with_defaults bundle c.config ≡ some c.config

  seat_cpu-memory :
      (cpu : Option (Config → CpuKind × Option ℕ)) (cfg : Config) (spec : MachineSpec Config)
      → (seat_cpu cpu cfg spec).memory ≡ spec.memory
  seat_cpu-memory none cfg spec = refl
  seat_cpu-memory (some cpu) cfg spec = refl

  -- The regions beyond the declared ones are some of those that the validator counts.
  abbrev Grows :
      List MemoryRegion
      → List MemoryRegion
      → List (ProfileCard Config)
      → MachineSpec Config
      → Type 0
  Grows declared m cards spec =
      (added : List MemoryRegion) × (spec.memory ≡ declared ++ (m ++ added))
      × Sub added (emitted_memory declared (claims_of get_bundle cards))

  -- One card, with what follows from the rest of the cards.
  load-Grows :
      (declared : List MemoryRegion) (c : ProfileCard Config) (cards : List (ProfileCard Config))
      (m : List MemoryRegion) (spec result : MachineSpec Config)
      → Filled c
      → spec.memory ≡ declared ++ m
      → ((m' : List MemoryRegion) (spec' : MachineSpec Config)
          → spec'.memory ≡ declared ++ m'
          → resolve_from get_bundle with_defaults cards spec' ≡ resolved result
          → Grows declared m' cards result)
      → (b : Option (Bundle Config)) → get_bundle c.ref ≡ b
      → load get_bundle with_defaults (resolve_from get_bundle with_defaults cards) c spec b
        ≡ resolved result
      → Grows declared m (c ∷ cards) result
  load-Grows declared c cards m spec result filled at rest none e h =
      absurd (refused≢resolved result (bundle_not_found c.ref c.id) h)
  load-Grows declared c cards m spec result filled at rest (some bundle) e h =
      let h' : resolve_from get_bundle with_defaults cards (seat c bundle c.config spec)
          ≡ resolved result =
        (rw (filled bundle e) at h) in
      let (one, same, sub) = hoist-Sub declared m c.id (bundle.memory c.config) in
      let at' : (seat c bundle c.config spec).memory ≡ declared ++ (m ++ one) =
        seat_cpu-memory bundle.cpu c.config _
        ∙ ap (hoist c.id (bundle.memory c.config)) at
        ∙ same in
      let (more, same', sub') = rest (m ++ one) (seat c bundle c.config spec) at' h' in
      (
        one ++ more,
        same' ∙ ap (λ l. declared ++ l) (append_assoc m one more),
        rw e (
            Sub-append one
              (filter (λ r. not (has_id r.id declared))
                (map (namespaced c.id) (bundle.memory c.config)))
              more (emitted_memory declared (claims_of get_bundle cards)) sub sub'),
      )

  resolve_from-Grows :
      (declared : List MemoryRegion) (cards : List (ProfileCard Config)) (m : List MemoryRegion)
      (spec result : MachineSpec Config)
      → All Filled cards
      → spec.memory ≡ declared ++ m
      → resolve_from get_bundle with_defaults cards spec ≡ resolved result
      → Grows declared m cards result
  resolve_from-Grows declared [] m spec result filled at h = (
    [],
    ap (λ s. s.memory) (sym (resolved-injective spec result h))
        ∙ at
        ∙ ap (λ l. declared ++ l) (sym (append-nil m)),
    none_left [],
  )
  resolve_from-Grows declared (c ∷ cards) m spec result filled at h =
      load-Grows declared c cards m spec result filled.0 at
        (λ m' spec' at' h'. resolve_from-Grows declared cards m' spec' result filled.1 at' h')
        (get_bundle c.ref) refl h

-- Where the cards of a profile are saved with their defaults, a profile that `validateProfile`
-- accepts and `resolveProfile` resolves gives a machine whose memory regions do not overlap.
pub resolve_profile-Disjoint :
    {Config : Type 0} (get_bundle : List ℕ → Option (Bundle Config))
    (with_defaults : Bundle Config → Config → Option Config) (profile : MachineProfile Config)
    (spec : MachineSpec Config)
    → All (Filled get_bundle with_defaults) profile.cards
    → (validate_profile get_bundle profile).ok ≡ true
    → resolve_profile get_bundle with_defaults profile ≡ resolved spec
    → Disjoint spec.memory
unfolding resolve_profile
resolve_profile-Disjoint get_bundle with_defaults profile spec filled ok h =
    let declared = profile.memory in
    let start : MachineSpec _ = record {
      cpu_kind = profile.cpu_kind;
      reset_vector = profile.reset_vector;
      memory = declared;
      cards = [];
    } in
    let (added, same, sub) =
      resolve_from-Grows get_bundle with_defaults declared profile.cards [] start spec filled
        (sym (append-nil declared)) h in
    let emitted = emitted_memory declared (claims_of get_bundle profile.cards) in
    let apart =
      Sub-Disjoint (declared ++ added) (declared ++ emitted)
        (Sub-append_left declared added emitted sub)
        (validate_profile-Sound get_bundle profile ok).3 in
    subst Disjoint (sym same) apart
