-- ===== src/Mounts/Repointed.antt =====
-- src/client-mount-registry.ts: `renameByBasename` leads every override of an image to its new
-- path, and no other.
use mathlib.Core.Bool.{true≢false}
use bitsby.Prelude.{
  ℕ, ◌<◌, ◌≤◌, ◌≡◌, refl, sym, inl, inr, true, false, Option, none, some, List, [], ◌∷◌, list_eq,
  Bool-cases, arith,
}
use bitsby.Mounts.Registry.{MountEntry}
use bitsby.Mounts.Entries.{find}
use bitsby.Mounts.Clients.{
  Drives, same_drive, ClientMountRegistry, for_client, get, repoint, rename_drives, rename_clients,
  rename_by_basename,
}
use bitsby.Mounts.Overrides.{Clients, look}

module _ (basename : List ℕ → List ℕ) (old_base new_path : List ℕ) where
  -- An entry before and after: of the image, it has the new path and an epoch younger than `lo`;
  -- of another, it is unchanged.
  abbrev pub PointsTo : ℕ → ℕ → MountEntry → MountEntry → Type 0
  PointsTo lo hi e e' =
      (list_eq (basename e.filename) old_base ≡ true
        → (e'.filename ≡ new_path)
          × ((e'.readonly ≡ e.readonly) × ((lo < e'.epoch) × (e'.epoch ≤ hi))))
      × (list_eq (basename e.filename) old_base ≡ false → e' ≡ e)

  abbrev pub Repointed : ℕ → ℕ → Option MountEntry → Option MountEntry → Type 0
  Repointed lo hi none after = after ≡ none
  Repointed lo hi (some e) after = (e' : MountEntry) × ((after ≡ some e') × PointsTo lo hi e e')

  repoint-PointsTo :
      (e : MountEntry) (n : ℕ)
      → (n ≤ (repoint basename old_base new_path e n).1)
        × PointsTo n
            (repoint basename old_base new_path e n).1
            e
            (repoint basename old_base new_path e n).0
  repoint-PointsTo e n = elim (Bool-cases (list_eq (basename e.filename) old_base)) [
    | inl t ↦ rw t (
      omega arith,
      ((λ _. (refl, (refl, (omega arith, omega arith)))), λ h. absurd (true≢false h)),
    )
    | inr f ↦ rw f (omega arith, ((λ h. absurd (true≢false (sym h))), λ _. refl))
  ]

  PointsTo-wider :
      (lo lo' hi' hi : ℕ) (e e' : MountEntry)
      → lo ≤ lo'
      → hi' ≤ hi
      → PointsTo lo' hi' e e'
      → PointsTo lo hi e e'
  PointsTo-wider lo lo' hi' hi e e' l h (moved, kept) = (
    λ t. (
      (moved t).0,
      ((moved t).1.0, (omega (arith, l, (moved t).1.1.0), omega (arith, h, (moved t).1.1.1))),
    ),
    kept,
  )

  Repointed-wider :
      (lo lo' hi' hi : ℕ) (before after : Option MountEntry)
      → lo ≤ lo'
      → hi' ≤ hi
      → Repointed lo' hi' before after
      → Repointed lo hi before after
  Repointed-wider lo lo' hi' hi none after l h gone = gone
  Repointed-wider lo lo' hi' hi (some e) after l h (e', (at, points)) =
      (e', (at, PointsTo-wider lo lo' hi' hi e e' l h points))

  rename_drives-Repointed :
      (drives : Drives) (n : ℕ)
      → (n ≤ (rename_drives basename old_base new_path drives n).1)
        × ((d : ℕ)
            → Repointed n
                (rename_drives basename old_base new_path drives n).1
                (find same_drive d drives)
                (find same_drive d (rename_drives basename old_base new_path drives n).0))
  rename_drives-Repointed [] n = (omega arith, λ d. refl)
  rename_drives-Repointed ((drive, e) ∷ rest) n =
      let here = repoint-PointsTo e n in
      let mid = (repoint basename old_base new_path e n).1 in
      let others = rename_drives-Repointed rest mid in
      let last = (rename_drives basename old_base new_path rest mid).1 in
      (
        omega (arith, here.0, others.0),
        λ d. elim (Bool-cases (same_drive drive d)) [
          | inl t ↦ rw t (
            (repoint basename old_base new_path e n).0,
            (
              refl,
              PointsTo-wider n n mid last e (repoint basename old_base new_path e n).0 (omega arith)
                  others.0 here.1,
            ),
          )
          | inr f ↦ rw f (
              Repointed-wider n mid last last (find same_drive d rest)
                (find same_drive d (rename_drives basename old_base new_path rest mid).0) here.0
                (omega arith) (others.1 d))
        ],
      )

  rename_clients-Repointed :
      (m : Clients) (n : ℕ)
      → (n ≤ (rename_clients basename old_base new_path m n).1)
        × ((client : List ℕ) (d : ℕ)
            → Repointed n
                (rename_clients basename old_base new_path m n).1
                (look client d m)
                (look client d (rename_clients basename old_base new_path m n).0))
  rename_clients-Repointed [] n = (omega arith, λ client d. refl)
  rename_clients-Repointed ((client, drives) ∷ rest) n =
      let here = rename_drives-Repointed drives n in
      let mid = (rename_drives basename old_base new_path drives n).1 in
      let others = rename_clients-Repointed rest mid in
      let last = (rename_clients basename old_base new_path rest mid).1 in
      (
        omega (arith, here.0, others.0),
        λ other d. elim (Bool-cases (list_eq client other)) [
          | inl t ↦ rw t (
              Repointed-wider n n mid last (find same_drive d drives)
                (find same_drive d (rename_drives basename old_base new_path drives n).0)
                (omega arith) others.0 (here.1 d))
          | inr f ↦ rw f (
              Repointed-wider n mid last last (look other d rest)
                (look other d (rename_clients basename old_base new_path rest mid).0) here.0
                (omega arith) (others.1 other d))
        ],
      )

  -- After an image is renamed, a client's override on a drive is there just where it was before.
  -- Of that image, it has the new path, the read-only flag that it had, and an epoch above the
  -- counter that the registry had and not above the new one; of another image, it is the same.
  pub rename_by_basename-Repointed :
      (client : List ℕ) (d : ℕ) (r : ClientMountRegistry)
      → Repointed r.epoch_counter
          (rename_by_basename basename old_base new_path r).epoch_counter
          (get client d r)
          (get client d (rename_by_basename basename old_base new_path r))
  unfolding get for_client rename_by_basename
  rename_by_basename-Repointed client d r =
      (rename_clients-Repointed r.by_client r.epoch_counter).1 client d

  pub rename_by_basename-grows :
      (r : ClientMountRegistry)
      → r.epoch_counter ≤ (rename_by_basename basename old_base new_path r).epoch_counter
  unfolding rename_by_basename
  rename_by_basename-grows r = (rename_clients-Repointed r.by_client r.epoch_counter).0
