-- ===== src/Bus/Memory.antt =====
-- src/services/collision-validator.ts and src/services/resolver.ts: memory regions that do not overlap,
-- and the regions that the resolver hoists.
use mathlib.Core.Bool.{true≢false}
use mathlib.Core.List.{append_assoc, append-nil}
use bitsby.Prelude.{
  ◌≤◌, ◌⊎◌, ◌+◌, ℕ, suc, ◌≡◌, refl, sym, ap, ◌∙◌, false, not, List, [], ◌∷◌, ◌++◌, map, filter,
  list_eq, length, length-append, Bool-cases, inl, inr, arith, All,
}
use bitsby.Bus.Profile.{MemoryRegion, namespaced, has_id}
use bitsby.Bus.Validator.{overlap, collisions_with, memory_collisions}
use bitsby.Bus.Resolver.{hoist}

-- One region ends before the other begins.
abbrev pub Apart : MemoryRegion → MemoryRegion → Type 0
Apart a b = (b.base + b.size ≤ a.base) ⊎ (a.base + a.size ≤ b.base)

-- No two regions overlap.
abbrev pub Disjoint : List MemoryRegion → Type 0
Disjoint [] = Unit
Disjoint (a ∷ regions) = All (Apart a) regions × Disjoint regions

overlap-Apart : (a b : MemoryRegion) → overlap a b ≡ false → Apart a b
overlap-Apart a b h = ground arith

collisions_with-All :
    (a : MemoryRegion) (regions : List MemoryRegion)
    → length (collisions_with a regions) ≡ 0
    → All (Apart a) regions
collisions_with-All a [] h = tt
collisions_with-All a (b ∷ regions) h = elim (Bool-cases (overlap a b)) [
  | inl k ↦
      let h' : suc (length (collisions_with a regions)) ≡ 0 = (rw k at h) in
      absurd (omega (arith, h'))
  | inr k ↦ (overlap-Apart a b k, collisions_with-All a regions (rw k at h))
]

pub memory_collisions-Disjoint :
    (regions : List MemoryRegion) → length (memory_collisions regions) ≡ 0 → Disjoint regions
memory_collisions-Disjoint [] h = tt
memory_collisions-Disjoint (a ∷ regions) h =
    let l = length-append (collisions_with a regions) (memory_collisions regions) in
    (
      collisions_with-All a regions (omega (arith, h, l)),
      memory_collisions-Disjoint regions (omega (arith, h, l)),
    )

-- Some of the regions of a list, in their order.
pub data Sub : List MemoryRegion → List MemoryRegion → Type 0 where
  none_left : (ys : List MemoryRegion) → Sub [] ys
  keep : (x : MemoryRegion) (xs ys : List MemoryRegion) → Sub xs ys → Sub (x ∷ xs) (x ∷ ys)
  skip : (y : MemoryRegion) (xs ys : List MemoryRegion) → Sub xs ys → Sub xs (y ∷ ys)

Sub-All :
    (a : MemoryRegion) (xs ys : List MemoryRegion) → Sub xs ys → All (Apart a) ys → All (Apart a) xs
Sub-All a xs ys (none_left _) h = tt
Sub-All a xs ys (keep x xs' ys' s) h = (h.0, Sub-All a xs' ys' s h.1)
Sub-All a xs ys (skip y _ ys' s) h = Sub-All a xs ys' s h.1

pub Sub-Disjoint : (xs ys : List MemoryRegion) → Sub xs ys → Disjoint ys → Disjoint xs
Sub-Disjoint xs ys (none_left _) d = tt
Sub-Disjoint xs ys (keep x xs' ys' s) d = (Sub-All x xs' ys' s d.0, Sub-Disjoint xs' ys' s d.1)
Sub-Disjoint xs ys (skip y _ ys' s) d = Sub-Disjoint xs ys' s d.1

pub Sub-append_left : (zs xs ys : List MemoryRegion) → Sub xs ys → Sub (zs ++ xs) (zs ++ ys)
Sub-append_left [] xs ys s = s
Sub-append_left (z ∷ zs) xs ys s = keep z (zs ++ xs) (zs ++ ys) (Sub-append_left zs xs ys s)

pub Sub-append :
    (xs ys xs' ys' : List MemoryRegion) → Sub xs ys → Sub xs' ys' → Sub (xs ++ xs') (ys ++ ys')
Sub-append xs ys xs' ys' (none_left _) t = skips ys xs' ys' t
  where
    skips : (zs xs ys : List MemoryRegion) → Sub xs ys → Sub xs (zs ++ ys)
    skips [] xs ys s = s
    skips (z ∷ zs) xs ys s = skip z xs (zs ++ ys) (skips zs xs ys s)
Sub-append xs ys xs' ys' (keep x rest rest' s) t =
    keep x (rest ++ xs') (rest' ++ ys') (Sub-append rest rest' xs' ys' s t)
Sub-append xs ys xs' ys' (skip y _ rest' s) t =
    skip y (xs ++ xs') (rest' ++ ys') (Sub-append xs rest' xs' ys' s t)

has_id-append :
    (id : List ℕ) (xs ys : List MemoryRegion) → has_id id (xs ++ ys) ≡ false → has_id id xs ≡ false
has_id-append id [] ys h = refl
has_id-append id (r ∷ xs) ys h = elim (Bool-cases (list_eq r.id id)) [
  | inl k ↦ absurd (true≢false (rw k at h))
  | inr k ↦ rw k (has_id-append id xs ys (rw k at h))
]

-- The regions of a card that the validator counts.
abbrev counted : List MemoryRegion → List ℕ → List MemoryRegion → List MemoryRegion
counted declared card_id regions =
    filter (λ r. not (has_id r.id declared)) (map (namespaced card_id) regions)

-- The resolver adds some of the regions that the validator counts.
pub hoist-Sub :
    (declared m : List MemoryRegion) (card_id : List ℕ) (regions : List MemoryRegion)
    → (added : List MemoryRegion) × (hoist card_id regions (declared ++ m)
        ≡ declared ++ (m ++ added))
      × Sub added (filter (λ r. not (has_id r.id declared)) (map (namespaced card_id) regions))
hoist-Sub declared m card_id [] = ([], ap (λ l. declared ++ l) (sym (append-nil m)), none_left [])
hoist-Sub declared m card_id (r ∷ regions) =
    let region = namespaced card_id r in
    elim (Bool-cases (has_id region.id (declared ++ m))) [
      | inl h ↦
          let (added, same, sub) = hoist-Sub declared m card_id regions in
          (
            added,
            rw h same,
            elim (Bool-cases (has_id region.id declared)) [
              | inl k ↦ rw (filter, k) sub
              | inr k ↦ rw (filter, k) (skip region added (counted declared card_id regions) sub)
            ],
          )
      | inr h ↦
          let k = has_id-append region.id declared m h in
          let (added, same, sub) = hoist-Sub declared (m ++ (region ∷ [])) card_id regions in
          (
            region ∷ added,
            rw h (
                ap (hoist card_id regions) (append_assoc declared m (region ∷ []))
                ∙ same
                ∙ ap (λ l. declared ++ l) (append_assoc m (region ∷ []) added)),
            rw (filter, k) (keep region added (counted declared card_id regions) sub),
          )
    ]
