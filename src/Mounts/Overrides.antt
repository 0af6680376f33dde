-- ===== src/Mounts/Overrides.antt =====
-- src/client-mount-registry.ts: an operation that clears leaves an override, or removes it.
use bitsby.Prelude.{
  ℕ, ◌≡◌, refl, ap, ◌∙◌, ◌⊎◌, inl, inr, true, Option, none, some, List, [], ◌∷◌, ◌==◌, list_eq,
  list_eq→eq, Bool-cases, arith,
}
use bitsby.Mounts.Registry.{MountEntry}
use bitsby.Mounts.Entries.{find, delete, find-delete_same, find-delete, find-put}
use bitsby.Mounts.Clients.{
  Drives, same_drive, or_empty, store, clear_drive, delete_based, keep_client, clear_clients,
}

abbrev pub Clients : Type 0
Clients = List (List ℕ × Drives)

abbrev pub look : List ℕ → ℕ → Clients → Option MountEntry
look client drive m = find same_drive drive (or_empty (find list_eq client m))

pub same_drive_eq : (a b : ℕ) → same_drive a b ≡ true → a ≡ b
same_drive_eq a b h = let e : (a == b) ≡ true = h in ground arith

abbrev Shrunk : Drives → Drives → Type 0
Shrunk before after =
    (d : ℕ)
    → (find same_drive d after ≡ find same_drive d before) ⊎ (find same_drive d after ≡ none)

delete_based-Shrunk :
    (basename : List ℕ → List ℕ) (base : List ℕ) (rest drives : Drives)
    → Shrunk drives (delete_based basename base rest drives)
delete_based-Shrunk basename base [] drives d = inl refl
delete_based-Shrunk basename base ((drive, entry) ∷ rest) drives d =
    elim (Bool-cases (list_eq (basename entry.filename) base)) [
      | inl e ↦ elim (delete_based-Shrunk basename base rest (delete same_drive drive drives) d) [
        | inl same ↦ elim (find-delete same_drive same_drive_eq d drive drives) [
          | inl kept ↦ rw e (inl (same ∙ kept))
          | inr gone ↦ rw e (inr (same ∙ gone))
        ]
        | inr gone ↦ rw e (inr gone)
      ]
      | inr e ↦ rw e (delete_based-Shrunk basename base rest drives d)
    ]

-- A client's drives are what they were before, or nothing.
abbrev pub Fewer : Clients → Clients → Type 0
Fewer before after =
    (client : List ℕ) (d : ℕ)
    → (look client d after ≡ look client d before) ⊎ (look client d after ≡ none)

pub delete-Fewer : (client : List ℕ) (m : Clients) → Fewer m (delete list_eq client m)
delete-Fewer client m other d = elim (find-delete list_eq list_eq→eq other client m) [
  | inl kept ↦ inl (ap (λ o. find same_drive d (or_empty o)) kept)
  | inr gone ↦ inr (ap (λ o. find same_drive d (or_empty o)) gone)
]

store-Fewer :
    (client : List ℕ) (before after : Drives) (m : Clients)
    → find list_eq client m ≡ some before
    → Shrunk before after
    → Fewer m (store client after m)
store-Fewer client before [] m here shrunk other d = delete-Fewer client m other d
store-Fewer client before (x ∷ xs) m here shrunk other d =
    elim (find-put list_eq list_eq→eq other client (x ∷ xs) m) [
      | inl (same, p) ↦ rw (p, same, here) (shrunk d)
      | inr p ↦ inl (ap (λ o. find same_drive d (or_empty o)) p)
    ]

pub clear_drive-Fewer :
    (client : List ℕ) (drive : ℕ) (drives : Option Drives) (m : Clients)
    → find list_eq client m ≡ drives
    → Fewer m (clear_drive client drive drives m)
clear_drive-Fewer client drive none m here other d = inl refl
clear_drive-Fewer client drive (some drives) m here other d =
    store-Fewer client drives (delete same_drive drive drives) m here
      (λ d'. find-delete same_drive same_drive_eq d' drive drives) other d

keep_client-Fewer :
    (basename : List ℕ → List ℕ) (client : List ℕ) (before after : Drives) (m m' : Clients)
    → Shrunk before after
    → Fewer m m'
    → Fewer ((client, before) ∷ m) (keep_client basename client after m')
keep_client-Fewer basename client before [] m m' shrunk fewer other d =
    elim (Bool-cases (list_eq client other)) [
      | inl e ↦
          let same : client ≡ other = list_eq→eq client other e in
          inr (rw (same, find-delete_same list_eq other m') refl)
      | inr e ↦ elim (delete-Fewer client m' other d) [
        | inl kept ↦ elim (fewer other d) [
          | inl kept' ↦ rw e (inl (kept ∙ kept'))
          | inr gone ↦ inr (kept ∙ gone)
        ]
        | inr gone ↦ inr gone
      ]
    ]
keep_client-Fewer basename client before (x ∷ xs) m m' shrunk fewer other d =
    elim (Bool-cases (list_eq client other)) [
      | inl e ↦ rw e (shrunk d)
      | inr e ↦ rw e (fewer other d)
    ]

pub clear_clients-Fewer :
    (basename : List ℕ → List ℕ) (base : List ℕ) (m : Clients)
    → Fewer m (clear_clients basename base m)
clear_clients-Fewer basename base [] client d = inl refl
clear_clients-Fewer basename base ((client, drives) ∷ rest) other d =
    keep_client-Fewer basename client drives (delete_based basename base drives drives) rest
      (clear_clients basename base rest) (delete_based-Shrunk basename base drives drives)
      (clear_clients-Fewer basename base rest) other d
