-- ===== src/Mounts/Epochs.antt =====
-- src/mount-registry.ts: the epoch of an entry tells whether a drive's mount has changed.
use mathlib.Core.Option.{some-injective, none-ne-some}
use bitsby.Prelude.{
  ℕ, ◌+◌, ◌<◌, ◌≤◌, ◌≡◌, refl, sym, ap, ◌∙◌, ◌⊎◌, inl, inr, Bool, true, false, Option, none, some,
  List, ◌==◌, if◌then◌else◌, arith,
}
use bitsby.Mounts.Registry.{
  MountEntry, MountRegistry, new_registry, assign, set, same, update_readonly, set_readonly, clear,
  get, Step, sets, sets_readonly, clears, Steps, stay, next,
}

-- No entry is younger than the counter.
abbrev Bounded : MountRegistry → Type 0
Bounded r = (d : ℕ) (e : MountEntry) → get d r ≡ some e → e.epoch ≤ r.epoch_counter

-- An entry of the later registry is one of the earlier, on the same drive, or younger than all.
abbrev Later : MountRegistry → MountRegistry → Type 0
Later r s =
    (r.epoch_counter ≤ s.epoch_counter)
    × ((d : ℕ) (e : MountEntry)
        → get d s ≡ some e
        → (get d r ≡ some e) ⊎ ((r.epoch_counter < e.epoch) × (e.epoch ≤ s.epoch_counter)))

assigned :
    (drive : ℕ) (entry : Option MountEntry) (mounts : ℕ → Option MountEntry) (d : ℕ)
    → (assign drive entry mounts d ≡ entry) ⊎ (assign drive entry mounts d ≡ mounts d)
assigned drive entry mounts d =
    elim (d == drive)
      as (λ t.
        ((if t then entry else mounts d) ≡ entry) ⊎ ((if t then entry else mounts d) ≡ mounts d)) [
          | true ↦ inl refl
          | false ↦ inr refl
        ]

abbrev put : ℕ → MountEntry → MountRegistry → MountRegistry
put drive x r = record {
  mounts = assign drive (some x) r.mounts;
  epoch_counter = r.epoch_counter + 1;
}

put-Later :
    (drive : ℕ) (x : MountEntry) (r : MountRegistry)
    → x.epoch ≡ r.epoch_counter + 1
    → Later r (put drive x r)
unfolding get
put-Later drive x r fresh = (
  omega arith,
  λ d e h. elim (assigned drive (some x) r.mounts d) [
    | inl p ↦
        let same_entry : x ≡ e = some-injective x e (sym p ∙ h) in
        let same_epoch : x.epoch ≡ e.epoch = ap (λ y. y.epoch) same_entry in
        inr (omega (arith, fresh, same_epoch), omega (arith, fresh, same_epoch))
    | inr p ↦ inl (sym p ∙ h)
  ],
)

stay-Later : (r : MountRegistry) → Later r r
stay-Later r = (omega arith, λ d e h. inl h)

update_readonly-Later :
    (drive : ℕ) (readonly : Bool) (cur : Option MountEntry) (r : MountRegistry)
    → Later r (update_readonly drive readonly cur r)
update_readonly-Later drive readonly none r = stay-Later r
update_readonly-Later drive readonly (some cur) r =
    elim (same cur.readonly readonly)
      as (λ t. Later r (
        if t
        then r
        else put drive (record cur { readonly = readonly; epoch = r.epoch_counter + 1 }) r)) [
          | true ↦ stay-Later r
          | false ↦
              put-Later drive (record cur { readonly = readonly; epoch = r.epoch_counter + 1 }) r
                refl
        ]

Step-Later : (r s : MountRegistry) → Step r s → Later r s
unfolding get set set_readonly clear
Step-Later r s (sets drive filename readonly _) =
    put-Later drive
      (record { filename = filename; readonly = readonly; epoch = r.epoch_counter + 1 }) r refl
Step-Later r s (sets_readonly drive readonly _) =
    update_readonly-Later drive readonly (r.mounts drive) r
Step-Later r s (clears drive _) = (
  omega arith,
  λ d e h. elim (assigned drive none r.mounts d) [
    | inl p ↦ absurd (none-ne-some e (sym p ∙ h))
    | inr p ↦ inl (sym p ∙ h)
  ],
)

Later-Bounded : (r s : MountRegistry) → Later r s → Bounded r → Bounded s
Later-Bounded r s (grows, old) b d e h = elim (old d e h) [
  | inl k ↦ omega (arith, b d e k)
  | inr young ↦ young.1
]

Later-trans : (r s t : MountRegistry) → Later r s → Later s t → Later r t
Later-trans r s t (g, old) (g', old') = (
  omega arith,
  λ d e h. elim (old' d e h) [
    | inl k ↦ elim (old d e k) [
      | inl k' ↦ inl k'
      | inr young ↦ inr (young.0, omega (arith, young.1))
    ]
    | inr young ↦ inr (omega (arith, young.0), young.1)
  ],
)

Steps-Later : (r s : MountRegistry) → Steps r s → Later r s
Steps-Later r s (stay _) = stay-Later r
Steps-Later r s (next _ m _ one rest) =
    Later-trans r m s (Step-Later r m one) (Steps-Later m s rest)

empty-Bounded : Bounded new_registry
unfolding get
empty-Bounded d e h = absurd (none-ne-some e h)

-- In a registry that some operations made of an empty one, and after any further operations, an
-- entry of a drive with the epoch that the drive's entry had is the same entry: file and read-only
-- flag are unchanged.
pub epoch-unchanged :
    (r s : MountRegistry) (drive : ℕ) (e e' : MountEntry)
    → Steps new_registry r
    → Steps r s
    → get drive r ≡ some e
    → get drive s ≡ some e'
    → e.epoch ≡ e'.epoch
    → e ≡ e'
epoch-unchanged r s drive e e' made more at_r at_s same_epoch =
    let bound =
      Later-Bounded new_registry r (Steps-Later new_registry r made) empty-Bounded drive e at_r in
    elim ((Steps-Later r s more).1 drive e' at_s) [
      | inl old ↦ some-injective e e' (sym at_r ∙ old)
      | inr young ↦ absurd (omega (arith, bound, young.0))
    ]

get-set :
    (drive : ℕ) (filename : List ℕ) (readonly : Bool) (r : MountRegistry)
    → get drive (set drive filename readonly r)
      ≡ some (record { filename = filename; readonly = readonly; epoch = r.epoch_counter + 1 })
unfolding get set
get-set drive filename readonly r = let here : (drive == drive) ≡ true = ground arith in rw here

-- Once an image has been mounted on a drive again, whatever operations follow, an entry of the
-- drive has a greater epoch than the drive's entry had before.
set-epoch :
    (r s : MountRegistry) (drive : ℕ) (filename : List ℕ) (readonly : Bool) (e e' : MountEntry)
    → Steps new_registry r
    → Steps (set drive filename readonly r) s
    → get drive r ≡ some e
    → get drive s ≡ some e'
    → e.epoch < e'.epoch
set-epoch r s drive filename readonly e e' made more at_r at_s =
    let bound =
      Later-Bounded new_registry r (Steps-Later new_registry r made) empty-Bounded drive e at_r in
    elim ((Steps-Later (set drive filename readonly r) s more).1 drive e' at_s) [
      | inl old ↦
          let fresh : r.epoch_counter + 1 ≡ e'.epoch =
            ap (λ x. x.epoch)
              (some-injective
                (record { filename = filename; readonly = readonly; epoch = r.epoch_counter + 1 })
                e' (sym (get-set drive filename readonly r) ∙ old)) in
          omega (arith, bound, fresh)
      | inr young ↦ omega (
        arith,
        bound,
        young.0,
        (Step-Later r (set drive filename readonly r) (sets drive filename readonly r)).0,
      )
    ]
