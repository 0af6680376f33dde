-- ===== src/Bus/Validator.antt =====
-- src/services/collision-validator.ts: the checks of
-- `validateProfile`.
use bitsby.Prelude.{
  ℕ, ◌+◌, ◌-◌, ◌%◌, min, max, Bool, true, false, not, ◌&&◌, Option, none, some, List, [], ◌∷◌, ◌++◌,
  map, filter, ◌==◌, ltb, leb, length, if◌then◌else◌, member, add_to,
}
use bitsby.Bus.Profile.{MemoryRegion, CpuKind, Bundle, ProfileCard, CardClaim, namespaced, has_id}

-- One constructor for each kind, with what its resource and offenders name.
pub data Collision : Type 0 where
  port : ℕ → List (List ℕ) → Collision
  irq : ℕ → List (List ℕ) → Collision
  memory : ℕ → ℕ → List ℕ → List ℕ → Collision
  cpu : List (List ℕ) → Collision

-- A stable sort by a key.
module _ {A : Type 0} (key : A → ℕ) where
  abbrev pub insert_by : A → List A → List A
  insert_by x [] = x ∷ []
  insert_by x (y ∷ ys) =
      let rest = insert_by x ys in if leb (key x) (key y) then x ∷ y ∷ ys else y ∷ rest

  abbrev pub sort_by : List A → List A
  sort_by [] = []
  sort_by (x ∷ xs) = insert_by x (sort_by xs)

-- new Set(ports)
abbrev pub set_from : List ℕ → List ℕ → List ℕ
set_from set [] = set
set_from set (x ∷ xs) = set_from (add_to x set) xs

module _ {Config : Type 0} (get_bundle : List ℕ → Option (Bundle Config)) where
  abbrev pub is_cpu_card : {A : Type 0} → Option A → Bool
  is_cpu_card none = false
  is_cpu_card (some c) = true

  abbrev pub cpu_reset_of : Config → Option (Config → CpuKind × Option ℕ) → Option ℕ
  cpu_reset_of config none = none
  cpu_reset_of config (some c) = (c config).1

  abbrev pub claim_of : ProfileCard Config → Option (Bundle Config) → CardClaim
  claim_of c none = record {
    card_id = c.id;
    ref = c.ref;
    ports = [];
    irq = none;
    memory = [];
    is_cpu = false;
    cpu_reset = none;
  }
  claim_of c (some bundle) = record {
    card_id = c.id;
    ref = c.ref;
    ports = sort_by (λ p. p) (map (λ p. p % 256) (bundle.ports c.config));
    irq = bundle.irq c.config;
    memory = map (namespaced c.id) (bundle.memory c.config);
    is_cpu = is_cpu_card bundle.cpu;
    cpu_reset = cpu_reset_of c.config bundle.cpu;
  }

  abbrev pub claims_of : List (ProfileCard Config) → List CardClaim
  claims_of [] = []
  claims_of (c ∷ cards) = claim_of c (get_bundle c.ref) ∷ claims_of cards

-- Whether two regions overlap.
abbrev pub overlap : MemoryRegion → MemoryRegion → Bool
overlap a b = ltb a.base (b.base + b.size) && ltb b.base (a.base + a.size)

-- The inner loop of memoryCollisions, and the outer one.
abbrev pub collisions_with : MemoryRegion → List MemoryRegion → List Collision
collisions_with a [] = []
collisions_with a (b ∷ regions) =
    let rest = collisions_with a regions in
    if overlap a b
    then memory (max a.base b.base) (min (a.base + a.size) (b.base + b.size) - 1) a.id b.id ∷ rest
    else rest

abbrev pub memory_collisions : List MemoryRegion → List Collision
memory_collisions [] = []
memory_collisions (a ∷ regions) = collisions_with a regions ++ memory_collisions regions

-- The ports that a card claims twice: `seen` and `dupes`.
abbrev pub dupes_from : List ℕ → List ℕ → List ℕ → List ℕ
dupes_from seen dupes [] = dupes
dupes_from seen dupes (p ∷ ports) = elim (member p seen) [
  | true ↦ dupes_from seen (add_to p dupes) ports
  | false ↦ dupes_from (add_to p seen) dupes ports
]

abbrev pub self_collisions : List CardClaim → List Collision
self_collisions [] = []
self_collisions (c ∷ claims) =
    map (λ p. port p (c.card_id ∷ [])) (sort_by (λ p. p) (dupes_from [] [] c.ports))
    ++ self_collisions claims

-- `portMap` and `irqMap`: the cards of a port or an IRQ, in the order of the first claim.
pub record Claimed : Type 0 where
  pub key : ℕ
  pub ids : List (List ℕ)

abbrev pub claim_key : List ℕ → ℕ → List Claimed → List Claimed
claim_key id k [] = record { key = k; ids = id ∷ [] } ∷ []
claim_key id k (e ∷ entries) =
    let rest = claim_key id k entries in
    if k == e.key then record e { ids = e.ids ++ (id ∷ []) } ∷ entries else e ∷ rest

abbrev pub claim_keys : List ℕ → List ℕ → List Claimed → List Claimed
claim_keys id [] entries = entries
claim_keys id (k ∷ keys) entries = claim_keys id keys (claim_key id k entries)

-- The loop over the claims, with the keys that a card claims.
abbrev pub claimed_from : (CardClaim → List ℕ) → List CardClaim → List Claimed → List Claimed
claimed_from keys_of [] entries = entries
claimed_from keys_of (c ∷ claims) entries =
    claimed_from keys_of claims (claim_keys c.card_id (keys_of c) entries)

-- The entries of more than one card.
abbrev pub shared : (ℕ → List (List ℕ) → Collision) → List Claimed → List Collision
shared collision [] = []
shared collision (e ∷ entries) =
    let rest = shared collision entries in
    if ltb 1 (length e.ids) then collision e.key e.ids ∷ rest else rest

abbrev pub port_keys : CardClaim → List ℕ
port_keys c = set_from [] c.ports

abbrev pub option_keys : Option ℕ → List ℕ
option_keys none = []
option_keys (some k) = k ∷ []

abbrev pub irq_keys : CardClaim → List ℕ
irq_keys c = option_keys c.irq

abbrev pub shared_by :
    (ℕ → List (List ℕ) → Collision) → (CardClaim → List ℕ) → List CardClaim → List Collision
shared_by collision keys_of claims =
    shared collision (sort_by (λ e. e.key) (claimed_from keys_of claims []))

-- claims.flatMap((c) => c.memory).filter((r) => !declaredIds.has(r.id))
abbrev pub emitted_memory : List MemoryRegion → List CardClaim → List MemoryRegion
emitted_memory declared [] = []
emitted_memory declared (c ∷ claims) =
    filter (λ r. not (has_id r.id declared)) c.memory ++ emitted_memory declared claims

abbrev pub cpu_cards : List CardClaim → List (List ℕ)
cpu_cards [] = []
cpu_cards (c ∷ claims) = let rest = cpu_cards claims in if c.is_cpu then c.card_id ∷ rest else rest

-- cpuCards.sort(): texts by their character codes
abbrev pub text_leb : List ℕ → List ℕ → Bool
text_leb [] t = true
text_leb (c ∷ s) [] = false
text_leb (c ∷ s) (d ∷ t) = let rest = text_leb s t in if c == d then rest else ltb c d

abbrev pub insert_text : List ℕ → List (List ℕ) → List (List ℕ)
insert_text x [] = x ∷ []
insert_text x (y ∷ ys) =
    let rest = insert_text x ys in if text_leb x y then x ∷ y ∷ ys else y ∷ rest

abbrev pub sort_texts : List (List ℕ) → List (List ℕ)
sort_texts [] = []
sort_texts (x ∷ xs) = insert_text x (sort_texts xs)

abbrev pub cpu_collisions : List CardClaim → List Collision
cpu_collisions claims =
    if ltb 1 (length (cpu_cards claims)) then cpu (sort_texts (cpu_cards claims)) ∷ [] else []
