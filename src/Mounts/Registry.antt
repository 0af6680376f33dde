-- ===== src/Mounts/Registry.antt =====
-- src/mount-registry.ts: `MountRegistry`, with its map as a function from drives. A file name is
-- the list of its character codes.
use bitsby.Prelude.{ℕ, ◌+◌, Bool, true, false, not, Option, none, some, List, ◌==◌, if◌then◌else◌}

pub record MountEntry : Type 0 where
  pub filename : List ℕ
  pub readonly : Bool
  pub epoch : ℕ

pub record MountRegistry : Type 0 where
  pub mounts : ℕ → Option MountEntry
  pub epoch_counter : ℕ

abbrev pub new_registry : MountRegistry
new_registry = record { mounts = λ _. none; epoch_counter = 0 }

-- this.mounts.set, and this.mounts.delete for `none`
abbrev pub assign : ℕ → Option MountEntry → (ℕ → Option MountEntry) → ℕ → Option MountEntry
assign drive entry mounts d = if d == drive then entry else mounts d

unfoldable pub set : ℕ → List ℕ → Bool → MountRegistry → MountRegistry
set drive filename readonly r =
    let epoch = r.epoch_counter + 1 in
    record {
      mounts =
          assign drive (some (record { filename = filename; readonly = readonly; epoch = epoch }))
            r.mounts;
      epoch_counter = epoch;
    }

abbrev pub same : Bool → Bool → Bool
same true b = b
same false b = not b

abbrev pub update_readonly : ℕ → Bool → Option MountEntry → MountRegistry → MountRegistry
update_readonly drive readonly none r = r
update_readonly drive readonly (some cur) r =
    if same cur.readonly readonly
    then r
    else (let epoch = r.epoch_counter + 1 in
        record {
          mounts = assign drive (some (record cur { readonly = readonly; epoch = epoch })) r.mounts;
          epoch_counter = epoch;
        })

unfoldable pub set_readonly : ℕ → Bool → MountRegistry → MountRegistry
set_readonly drive readonly r = update_readonly drive readonly (r.mounts drive) r

unfoldable pub clear : ℕ → MountRegistry → MountRegistry
clear drive r = record r { mounts = assign drive none r.mounts }

unfoldable pub get : ℕ → MountRegistry → Option MountEntry
get drive r = r.mounts drive

abbrev pub is_some : Option MountEntry → Bool
is_some none = false
is_some (some e) = true

unfoldable pub is_mounted : ℕ → MountRegistry → Bool
is_mounted drive r = is_some (r.mounts drive)

-- One operation of the registry.
pub data Step : MountRegistry → MountRegistry → Type 0 where
  sets :
      (drive : ℕ) (filename : List ℕ) (readonly : Bool) (r : MountRegistry)
      → Step r (set drive filename readonly r)
  sets_readonly :
      (drive : ℕ) (readonly : Bool) (r : MountRegistry) → Step r (set_readonly drive readonly r)
  clears : (drive : ℕ) (r : MountRegistry) → Step r (clear drive r)

-- Any number of operations.
pub data Steps : MountRegistry → MountRegistry → Type 0 where
  stay : (r : MountRegistry) → Steps r r
  next : (r s t : MountRegistry) → Step r s → Steps s t → Steps r t
