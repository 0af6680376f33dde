-- ===== src/Bus/Sound.antt =====
-- src/services/collision-validator.ts and src/services/resolver.ts: what an accepted profile guarantees,
-- for its cards and for the machine that it resolves to.
use mathlib.Core.Bool.{true≢false}
use bitsby.Prelude.{
  filter, ℕ, suc, ◌≤◌, ◌≡◌, refl, sym, ap, ◌∙◌, true, false, Option, List, [], ◌∷◌, ◌++◌, map, ◌==◌,
  ==_iff, ltb, leb, length, length-append, Bool-cases, inl, inr, arith, All, member,
  member-append_self, Distinct, add_to,
}
use bitsby.Bus.Profile.{MemoryRegion, Bundle, MachineProfile, CardClaim}
use bitsby.Bus.Validator.{
  port, irq, insert_by, sort_by, dupes_from, self_collisions, shared_by, port_keys, irq_keys,
  cpu_cards, cpu_collisions, memory_collisions, claims_of,
}
use bitsby.Bus.Validation.{all_memory, all_collisions, validate_profile}
use bitsby.Bus.Claimants.{
  claimants-ports, claimants, shared_by-claimants, port_keys-Distinct, irq_keys-Distinct,
}
use bitsby.Bus.Memory.{Disjoint, memory_collisions-Disjoint}

-- The ports of a card that it claims twice: their set only grows.
length-add_to : (x : ℕ) (set : List ℕ) → length set ≤ length (add_to x set)
length-add_to x set = elim (Bool-cases (member x set)) [
  | inl e ↦ rw e (omega arith)
  | inr e ↦ rw e (omega (arith, length-append set (x ∷ [])))
]

length-add_to_empty : (x : ℕ) (set : List ℕ) → length set ≡ 0 → 1 ≤ length (add_to x set)
length-add_to_empty x [] h = omega arith
length-add_to_empty x (y ∷ set) h = absurd (omega (arith, h))

length-dupes_from :
    (ports seen dupes : List ℕ) → length dupes ≤ length (dupes_from seen dupes ports)
length-dupes_from [] seen dupes = omega arith
length-dupes_from (p ∷ ports) seen dupes = elim (Bool-cases (member p seen)) [
  | inl h ↦
      rw (dupes_from, h)
        (omega (arith, length-dupes_from ports seen (add_to p dupes), length-add_to p dupes))
  | inr h ↦ rw (dupes_from, h) (length-dupes_from ports (add_to p seen) dupes)
]

member-append_left :
    (x y : ℕ) (set : List ℕ) → member x (set ++ (y ∷ [])) ≡ false → member x set ≡ false
member-append_left x y [] h = refl
member-append_left x y (z ∷ set) h = elim (Bool-cases (x == z)) [
  | inl e ↦ absurd (true≢false (rw e at h))
  | inr e ↦ rw e (member-append_left x y set (rw e at h))
]

-- None of the elements is in a set, so that no element of the set is among them.
not_among :
    (p : ℕ) (set ports : List ℕ)
    → All (λ q. member q set ≡ false) ports
    → member p set ≡ true
    → member p ports ≡ false
not_among p set [] h m = refl
not_among p set (q ∷ ports) h m = elim (Bool-cases (p == q)) [
  | inl e ↦
      let same : p ≡ q = (==_iff p q).0 e in
      absurd (true≢false (sym m ∙ ap (λ x. member x set) same ∙ h.0))
  | inr e ↦ rw e (not_among p set ports h.1 m)
]

not_seen :
    (p : ℕ) (seen ports : List ℕ)
    → All (λ q. member q (seen ++ (p ∷ [])) ≡ false) ports
    → All (λ q. member q seen ≡ false) ports
not_seen p seen [] h = tt
not_seen p seen (q ∷ ports) h = (member-append_left q p seen h.0, not_seen p seen ports h.1)

dupes_from-Distinct :
    (ports seen : List ℕ)
    → length (dupes_from seen [] ports) ≡ 0
    → Distinct ports × All (λ q. member q seen ≡ false) ports
dupes_from-Distinct [] seen h = (tt, tt)
dupes_from-Distinct (p ∷ ports) seen h = elim (Bool-cases (member p seen)) [
  | inl m ↦
      let h' : length (dupes_from seen (add_to p []) ports) ≡ 0 = (rw (dupes_from, m) at h) in
      absurd (omega (arith, h', length-dupes_from ports seen (p ∷ [])))
  | inr m ↦
      let h' : length (dupes_from (seen ++ (p ∷ [])) [] ports) ≡ 0 = (rw (dupes_from, m, m) at h) in
      let rest = dupes_from-Distinct ports (seen ++ (p ∷ [])) h' in
      (
        (not_among p (seen ++ (p ∷ [])) ports rest.1 (member-append_self p seen), rest.0),
        (m, not_seen p seen ports rest.1),
      )
]

length-sort_by : (xs : List ℕ) → length (sort_by (λ p. p) xs) ≡ length xs
length-sort_by [] = refl
length-sort_by (x ∷ xs) = inserted x (sort_by (λ p. p) xs) ∙ ap suc (length-sort_by xs)
  where
    inserted : (x : ℕ) (ys : List ℕ) → length (insert_by (λ p. p) x ys) ≡ suc (length ys)
    inserted x [] = refl
    inserted x (y ∷ ys) = elim (Bool-cases (leb x y)) [
      | inl h ↦ rw h refl
      | inr h ↦ rw h (ap suc (inserted x ys))
    ]

length-map : {A : Type 0} (f : ℕ → A) (xs : List ℕ) → length (map f xs) ≡ length xs
length-map f [] = refl
length-map f (x ∷ xs) = ap suc (length-map f xs)

self_collisions-Distinct :
    (claims : List CardClaim)
    → length (self_collisions claims) ≡ 0
    → All (λ c. Distinct c.ports) claims
self_collisions-Distinct [] h = tt
self_collisions-Distinct (c ∷ claims) h =
    let dupes = dupes_from [] [] c.ports in
    let reported = map (λ p. port p (c.card_id ∷ [])) (sort_by (λ p. p) dupes) in
    let l = length-append reported (self_collisions claims) in
    let m = length-map (λ p. port p (c.card_id ∷ [])) (sort_by (λ p. p) dupes) in
    let n = length-sort_by dupes in
    (
      (dupes_from-Distinct c.ports [] (omega (arith, h, l, m, n))).0,
      self_collisions-Distinct claims (omega (arith, h, l)),
    )

length-cpu_cards :
    (claims : List CardClaim) → length (cpu_cards claims) ≡ length (filter (λ c. c.is_cpu) claims)
length-cpu_cards [] = refl
length-cpu_cards (c ∷ claims) = elim (Bool-cases c.is_cpu) [
  | inl h ↦ rw (h, filter) (ap suc (length-cpu_cards claims))
  | inr h ↦ rw (h, filter) (length-cpu_cards claims)
]

cpu_collisions-single :
    (claims : List CardClaim) → length (cpu_collisions claims) ≡ 0 → length (cpu_cards claims) ≤ 1
cpu_collisions-single claims h = elim (Bool-cases (ltb 1 (length (cpu_cards claims)))) [
  | inl k ↦ let h' : 1 ≡ 0 = (rw k at h) in absurd (omega (arith, h'))
  | inr k ↦ ground arith
]

-- What no collision means for the cards and the regions.
abbrev pub Sound : List MemoryRegion → List CardClaim → Type 0
Sound declared claims =
    All (λ c. Distinct c.ports) claims
    × ((p : ℕ) → length (claimants (λ c. c.ports) p claims) ≤ 1)
    × ((i : ℕ) → length (claimants irq_keys i claims) ≤ 1)
    × Disjoint (all_memory declared claims)
    × (length (filter (λ c. c.is_cpu) claims) ≤ 1)

all_collisions-Sound :
    (declared : List MemoryRegion) (claims : List CardClaim)
    → length (all_collisions declared claims) ≡ 0
    → Sound declared claims
all_collisions-Sound declared claims h =
    let a = self_collisions claims in
    let b = shared_by port port_keys claims in
    let c = shared_by irq irq_keys claims in
    let d = memory_collisions (all_memory declared claims) in
    let e = cpu_collisions claims in
    let l = length-append a (b ++ (c ++ (d ++ e))) in
    let m = length-append b (c ++ (d ++ e)) in
    let n = length-append c (d ++ e) in
    let o = length-append d e in
    (
      self_collisions-Distinct claims (omega (arith, h, l)),
      λ p. omega (
        arith,
        ap length (claimants-ports p claims),
        shared_by-claimants port port_keys claims p port_keys-Distinct (omega (arith, h, l, m)),
      ),
      λ i. shared_by-claimants irq irq_keys claims i irq_keys-Distinct (omega (arith, h, l, m, n)),
      memory_collisions-Disjoint (all_memory declared claims) (omega (arith, h, l, m, n, o)),
      omega (
        arith,
        length-cpu_cards claims,
        cpu_collisions-single claims (omega (arith, h, l, m, n, o)),
      ),
    )

-- In a profile that `validateProfile` accepts, no card claims a port twice, no port and no IRQ is
-- claimed by two cards, the memory regions, declared and emitted, do not overlap, and at most one
-- card is a CPU.
pub validate_profile-Sound :
    {Config : Type 0} (get_bundle : List ℕ → Option (Bundle Config))
    (content : MachineProfile Config)
    → (validate_profile get_bundle content).ok ≡ true
    → Sound content.memory (claims_of get_bundle content.cards)
unfolding validate_profile
validate_profile-Sound get_bundle content ok =
    all_collisions-Sound content.memory (claims_of get_bundle content.cards) (ground arith)
