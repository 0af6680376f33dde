-- ===== src/Mounts/Clients.antt =====
-- src/client-mount-registry.ts: `ClientMountRegistry`. A client's id, a file name and a base name
-- are lists of character codes; the base name of a path is a parameter.
use bitsby.Prelude.{ℕ, ◌+◌, Bool, Option, none, some, List, [], ◌∷◌, ◌==◌, list_eq, if◌then◌else◌}
use bitsby.Mounts.Registry.{MountEntry}
use bitsby.Mounts.Entries.{find, put, delete}

abbrev pub Drives : Type 0
Drives = List (ℕ × MountEntry)

abbrev pub same_drive : ℕ → ℕ → Bool
same_drive d d' = d == d'

pub record ClientMountRegistry : Type 0 where
  pub by_client : List (List ℕ × Drives)
  pub epoch_counter : ℕ

abbrev pub no_overrides : ClientMountRegistry
no_overrides = record { by_client = []; epoch_counter = 0 }

abbrev pub or_empty : Option Drives → Drives
or_empty none = []
or_empty (some drives) = drives

unfoldable pub for_client : List ℕ → ClientMountRegistry → Drives
for_client client r = or_empty (find list_eq client r.by_client)

unfoldable pub get : List ℕ → ℕ → ClientMountRegistry → Option MountEntry
unfolding for_client
get client drive r = find same_drive drive (for_client client r)

unfoldable pub set : List ℕ → ℕ → List ℕ → Bool → ClientMountRegistry → ClientMountRegistry
unfolding for_client
set client drive filename readonly r =
    let epoch = r.epoch_counter + 1 in
    let entry : MountEntry = record { filename = filename; readonly = readonly; epoch = epoch } in
    record {
      by_client = put list_eq client (put same_drive drive entry (for_client client r)) r.by_client;
      epoch_counter = epoch;
    }

-- The drives of a client that are left: without any, the client is deleted.
abbrev pub store : List ℕ → Drives → List (List ℕ × Drives) → List (List ℕ × Drives)
store client [] m = delete list_eq client m
store client (x ∷ xs) m = put list_eq client (x ∷ xs) m

abbrev pub clear_drive :
    List ℕ → ℕ → Option Drives → List (List ℕ × Drives) → List (List ℕ × Drives)
clear_drive client drive none m = m
clear_drive client drive (some drives) m = store client (delete same_drive drive drives) m

unfoldable pub clear : List ℕ → ℕ → ClientMountRegistry → ClientMountRegistry
clear client drive r = record r {
  by_client = clear_drive client drive (find list_eq client r.by_client) r.by_client;
}

unfoldable pub clear_client : List ℕ → ClientMountRegistry → ClientMountRegistry
clear_client client r = record r { by_client = delete list_eq client r.by_client }

module _ (basename : List ℕ → List ℕ) where
  -- The inner loop of clearByBasename, over the entries that the client's map had.
  abbrev pub delete_based : List ℕ → Drives → Drives → Drives
  delete_based base [] drives = drives
  delete_based base ((drive, entry) ∷ rest) drives =
      delete_based base rest
        (if list_eq (basename entry.filename) base then delete same_drive drive drives else drives)

  -- A client of the loop, before the clients that follow it.
  abbrev pub keep_client : List ℕ → Drives → List (List ℕ × Drives) → List (List ℕ × Drives)
  keep_client client [] rest = delete list_eq client rest
  keep_client client (x ∷ xs) rest = (client, x ∷ xs) ∷ rest

  abbrev pub clear_clients : List ℕ → List (List ℕ × Drives) → List (List ℕ × Drives)
  clear_clients base [] = []
  clear_clients base ((client, drives) ∷ rest) =
      keep_client client (delete_based base drives drives) (clear_clients base rest)

  unfoldable pub clear_by_basename : List ℕ → ClientMountRegistry → ClientMountRegistry
  clear_by_basename base r = record r { by_client = clear_clients base r.by_client }

  -- An entry of the inner loop of renameByBasename, which sets the key that it visits.
  abbrev pub repoint : List ℕ → List ℕ → MountEntry → ℕ → MountEntry × ℕ
  repoint old_base new_path entry counter =
      if list_eq (basename entry.filename) old_base
      then (
        record { filename = new_path; readonly = entry.readonly; epoch = counter + 1 },
        counter + 1,
      )
      else (entry, counter)

  abbrev pub rename_drives : List ℕ → List ℕ → Drives → ℕ → Drives × ℕ
  rename_drives old_base new_path [] counter = ([], counter)
  rename_drives old_base new_path ((drive, entry) ∷ rest) counter =
      let here = repoint old_base new_path entry counter in
      let others = rename_drives old_base new_path rest here.1 in
      ((drive, here.0) ∷ others.0, others.1)

  abbrev pub rename_clients :
      List ℕ → List ℕ → List (List ℕ × Drives) → ℕ → List (List ℕ × Drives) × ℕ
  rename_clients old_base new_path [] counter = ([], counter)
  rename_clients old_base new_path ((client, drives) ∷ rest) counter =
      let here = rename_drives old_base new_path drives counter in
      let others = rename_clients old_base new_path rest here.1 in
      ((client, here.0) ∷ others.0, others.1)

  unfoldable pub rename_by_basename : List ℕ → List ℕ → ClientMountRegistry → ClientMountRegistry
  rename_by_basename old_base new_path r =
      let renamed = rename_clients old_base new_path r.by_client r.epoch_counter in
      record { by_client = renamed.0; epoch_counter = renamed.1 }

  -- One operation of the registry.
  pub data Change : ClientMountRegistry → ClientMountRegistry → Type 0 where
    sets :
        (client : List ℕ) (drive : ℕ) (filename : List ℕ) (readonly : Bool)
        (r : ClientMountRegistry)
        → Change r (set client drive filename readonly r)
    clears :
        (client : List ℕ) (drive : ℕ) (r : ClientMountRegistry) → Change r (clear client drive r)
    clears_client : (client : List ℕ) (r : ClientMountRegistry) → Change r (clear_client client r)
    clears_basename :
        (base : List ℕ) (r : ClientMountRegistry) → Change r (clear_by_basename base r)
    renames_basename :
        (old_base new_path : List ℕ) (r : ClientMountRegistry)
        → Change r (rename_by_basename old_base new_path r)

  -- Any number of operations.
  pub data Changes : ClientMountRegistry → ClientMountRegistry → Type 0 where
    unchanged : (r : ClientMountRegistry) → Changes r r
    changes : (r s t : ClientMountRegistry) → Change r s → Changes s t → Changes r t
