-- ===== src/Mounts/Renamed.antt =====
-- src/client-mount-registry.ts: the epoch of an override tells whether it has changed.
use mathlib.Core.Option.{some-injective, none-ne-some}
use bitsby.Prelude.{
  ℕ, ◌+◌, ◌<◌, ◌≤◌, ◌≡◌, refl, sym, ap, ◌∙◌, ◌⊎◌, inl, inr, Bool, Option, none, some, List, list_eq,
  list_eq→eq, Bool-cases, arith,
}
use bitsby.Mounts.Registry.{MountEntry}
use bitsby.Mounts.Entries.{find, put, delete, find-put}
use bitsby.Mounts.Clients.{
  Drives, same_drive, ClientMountRegistry, no_overrides, or_empty, for_client, get, set,
  clear_drive, clear, clear_client, clear_clients, clear_by_basename, rename_by_basename, Change,
  sets, clears, clears_client, clears_basename, renames_basename, Changes, unchanged, changes,
}
use bitsby.Mounts.Overrides.{
  Clients, look, Fewer, same_drive_eq, delete-Fewer, clear_drive-Fewer, clear_clients-Fewer,
}
use bitsby.Mounts.Repointed.{Repointed, rename_by_basename-Repointed, rename_by_basename-grows}

-- What is there is what was there before, or is younger than `lo`, and not than `hi`.
abbrev Younger : ℕ → ℕ → Option MountEntry → Option MountEntry → Type 0
Younger lo hi before after =
    (e : MountEntry) → after ≡ some e → (before ≡ some e) ⊎ ((lo < e.epoch) × (e.epoch ≤ hi))

Younger-kept :
    (lo hi : ℕ) (before after : Option MountEntry) → after ≡ before → Younger lo hi before after
Younger-kept lo hi before after kept e h = inl (sym kept ∙ h)

Younger-gone :
    (lo hi : ℕ) (before after : Option MountEntry) → after ≡ none → Younger lo hi before after
Younger-gone lo hi before after gone e h = absurd (none-ne-some e (sym gone ∙ h))

Younger-made :
    (lo hi : ℕ) (before after : Option MountEntry) (x : MountEntry)
    → after ≡ some x
    → lo < x.epoch
    → x.epoch ≤ hi
    → Younger lo hi before after
Younger-made lo hi before after x made above below e h =
    let same : x.epoch ≡ e.epoch = ap (λ y. y.epoch) (some-injective x e (sym made ∙ h)) in
    inr (omega (arith, above, same), omega (arith, below, same))

Younger-wider :
    (lo lo' hi' hi : ℕ) (before after : Option MountEntry)
    → lo ≤ lo'
    → hi' ≤ hi
    → Younger lo' hi' before after
    → Younger lo hi before after
Younger-wider lo lo' hi' hi before after l h young e at = elim (young e at) [
  | inl old ↦ inl old
  | inr (a, b) ↦ inr (omega (arith, l, a), omega (arith, h, b))
]

abbrev Later : ClientMountRegistry → ClientMountRegistry → Type 0
Later r s =
    (r.epoch_counter ≤ s.epoch_counter)
    × ((client : List ℕ) (d : ℕ)
        → Younger r.epoch_counter s.epoch_counter (look client d r.by_client)
            (look client d s.by_client))

Fewer-Later :
    (r : ClientMountRegistry) (m : Clients)
    → Fewer r.by_client m
    → Later r (record r { by_client = m })
Fewer-Later r m fewer = (
  omega arith,
  λ client d. elim (fewer client d) [
    | inl kept ↦
        Younger-kept r.epoch_counter r.epoch_counter (look client d r.by_client) (look client d m)
          kept
    | inr gone ↦
        Younger-gone r.epoch_counter r.epoch_counter (look client d r.by_client) (look client d m)
          gone
  ],
)

set-Later :
    (client : List ℕ) (drive : ℕ) (filename : List ℕ) (readonly : Bool) (r : ClientMountRegistry)
    → Later r (set client drive filename readonly r)
unfolding set for_client
set-Later client drive filename readonly r = (
  omega arith,
  λ other d.
      let x : MountEntry = record {
        filename = filename;
        readonly = readonly;
        epoch = r.epoch_counter + 1;
      } in
      let drives : Drives = or_empty (find list_eq client r.by_client) in
      let now = put same_drive drive x drives in
      let lo = r.epoch_counter in
      let before = look other d r.by_client in
      let after = look other d (put list_eq client now r.by_client) in
      elim (find-put list_eq list_eq→eq other client now r.by_client) [
        | inr p ↦ Younger-kept lo (lo + 1) before after (ap (λ o. find same_drive d (or_empty o)) p)
        | inl (same, p) ↦
            let found : after ≡ find same_drive d now =
              ap (λ o. find same_drive d (or_empty o)) p in
            elim (find-put same_drive same_drive_eq d drive x drives) [
              | inl (_, q) ↦
                  Younger-made lo (lo + 1) before after x (found ∙ q) (omega arith) (omega arith)
              | inr q ↦ Younger-kept lo (lo + 1) before after (
                  found
                  ∙ q
                  ∙ ap (λ c. find same_drive d (or_empty (find list_eq c r.by_client))) (sym same))
            ]
      ],
)

Repointed-Younger :
    (basename : List ℕ → List ℕ) (old_base new_path : List ℕ) (lo hi : ℕ)
    (before after : Option MountEntry)
    → Repointed basename old_base new_path lo hi before after
    → Younger lo hi before after
Repointed-Younger basename old_base new_path lo hi none after gone =
    Younger-gone lo hi none after gone
Repointed-Younger basename old_base new_path lo hi (some x) after (x', (at, points)) =
    elim (Bool-cases (list_eq (basename x.filename) old_base)) [
      | inl t ↦
          let moved = (points.0 t).1.1 in Younger-made lo hi (some x) after x' at moved.0 moved.1
      | inr f ↦ Younger-kept lo hi (some x) after (at ∙ ap (λ y. some y) (points.1 f))
    ]

module _ (basename : List ℕ → List ℕ) where
  Change-Later : (r s : ClientMountRegistry) → Change basename r s → Later r s
  unfolding get for_client clear clear_client clear_by_basename
  Change-Later r s (sets client drive filename readonly _) =
      set-Later client drive filename readonly r
  Change-Later r s (clears client drive _) =
      Fewer-Later r (clear_drive client drive (find list_eq client r.by_client) r.by_client)
        (clear_drive-Fewer client drive (find list_eq client r.by_client) r.by_client refl)
  Change-Later r s (clears_client client _) =
      Fewer-Later r (delete list_eq client r.by_client) (delete-Fewer client r.by_client)
  Change-Later r s (clears_basename base _) =
      Fewer-Later r (clear_clients basename base r.by_client)
        (clear_clients-Fewer basename base r.by_client)
  Change-Later r s (renames_basename old_base new_path _) = (
    rename_by_basename-grows basename old_base new_path r,
    λ client d.
        let s = rename_by_basename basename old_base new_path r in
        Repointed-Younger basename old_base new_path r.epoch_counter s.epoch_counter
          (look client d r.by_client) (look client d s.by_client)
          (rename_by_basename-Repointed basename old_base new_path client d r),
  )

  Later-trans : (r s t : ClientMountRegistry) → Later r s → Later s t → Later r t
  Later-trans r s t (grows, young) (grows', young') = (
    omega arith,
    λ client d e h. elim (young' client d e h) [
      | inl kept ↦
          Younger-wider r.epoch_counter r.epoch_counter s.epoch_counter t.epoch_counter
            (look client d r.by_client) (look client d s.by_client) (omega arith) grows'
            (young client d) e kept
      | inr (a, b) ↦ inr (omega (arith, a, grows), b)
    ],
  )

  Changes-Later : (r s : ClientMountRegistry) → Changes basename r s → Later r s
  Changes-Later r s (unchanged _) = (
    omega arith,
    λ client d.
        Younger-kept r.epoch_counter r.epoch_counter (look client d r.by_client)
          (look client d r.by_client) refl,
  )
  Changes-Later r s (changes _ m _ one rest) =
      Later-trans r m s (Change-Later r m one) (Changes-Later m s rest)

  -- In a registry that some operations made of an empty one, and after any further operations, an
  -- override of a client on a drive with the epoch that the override of the client on the drive
  -- had is the same override: file and read-only flag are unchanged.
  pub override-unchanged :
      (r s : ClientMountRegistry) (client : List ℕ) (drive : ℕ) (e e' : MountEntry)
      → Changes basename no_overrides r
      → Changes basename r s
      → get client drive r ≡ some e
      → get client drive s ≡ some e'
      → e.epoch ≡ e'.epoch
      → e ≡ e'
  unfolding get for_client
  override-unchanged r s client drive e e' made more at_r at_s same_epoch =
      elim ((Changes-Later no_overrides r made).1 client drive e at_r) [
        | inl nothing ↦ absurd (none-ne-some e nothing)
        | inr (_, bound) ↦ elim ((Changes-Later r s more).1 client drive e' at_s) [
          | inl old ↦ some-injective e e' (sym at_r ∙ old)
          | inr (young, _) ↦ absurd (omega (arith, bound, young, same_epoch))
        ]
      ]
