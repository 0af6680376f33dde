-- ===== src/Mounts/Tests.antt =====
-- Witnesses for src/mount-registry.ts and src/client-mount-registry.ts: two images on two drives.
use bitsby.Prelude.{ℕ, ◌≡◌, refl, true, false, some, List, [], ◌∷◌}
use bitsby.Mounts.Registry.{
  MountEntry, MountRegistry, new_registry, set, get, sets, Steps, stay, next,
}
use bitsby.Mounts.Epochs.{epoch-unchanged}
use bitsby.Mounts.Clients.{
  ClientMountRegistry, no_overrides, get as get_override, for_client, set as set_override,
  rename_by_basename, sets as sets_override, renames_basename, unchanged, changes,
}
use bitsby.Mounts.Repointed.{Repointed, rename_by_basename-Repointed}
use bitsby.Mounts.Renamed.{override-unchanged}

abbrev one : MountRegistry
one = set 0 (b'a' ∷ []) false new_registry

abbrev two : MountRegistry
two = set 1 (b'b' ∷ []) true one

abbrev entry_a : MountEntry
entry_a = record { filename = b'a' ∷ []; readonly = false; epoch = 1 }

one-Steps : Steps new_registry one
one-Steps = next new_registry one one (sets 0 (b'a' ∷ []) false new_registry) (stay one)

two-Steps : Steps one two
two-Steps = next one two two (sets 1 (b'b' ∷ []) true one) (stay two)

epoch-unchanged_example : entry_a ≡ entry_a
unfolding set get
epoch-unchanged_example =
    epoch-unchanged one two 0 entry_a entry_a one-Steps two-Steps refl refl refl

abbrev base : List ℕ → List ℕ
base path = path

abbrev overridden : ClientMountRegistry
overridden = set_override (b'x' ∷ []) 0 (b'a' ∷ []) false no_overrides

abbrev renamed : ClientMountRegistry
renamed = rename_by_basename base (b'b' ∷ []) (b'c' ∷ []) overridden

override-unchanged_example : entry_a ≡ entry_a
unfolding set_override get_override rename_by_basename for_client
override-unchanged_example =
    override-unchanged base overridden renamed (b'x' ∷ []) 0 entry_a entry_a
      (changes no_overrides overridden overridden
        (sets_override (b'x' ∷ []) 0 (b'a' ∷ []) false no_overrides) (unchanged overridden))
      (changes overridden renamed renamed (renames_basename (b'b' ∷ []) (b'c' ∷ []) overridden)
        (unchanged renamed))
      refl refl refl

rename_by_basename-Repointed_example :
    Repointed base
      (b'a' ∷ [])
      (b'd' ∷ [])
      1
      2
      (some entry_a)
      (some (record { filename = b'd' ∷ []; readonly = false; epoch = 2 }))
unfolding set_override get_override rename_by_basename for_client
rename_by_basename-Repointed_example =
    rename_by_basename-Repointed base (b'a' ∷ []) (b'd' ∷ []) (b'x' ∷ []) 0 overridden
