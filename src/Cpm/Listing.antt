-- ===== src/Cpm/Listing.antt =====
-- src/cpm-filesystem.ts: `listFiles` and `readFile`. `localeCompare` is a parameter: the test that
-- one name does not stand behind another.
use Prim.Native.Nat.{bit_and}
use bitsby.Prelude.{
  ℕ, ◌+◌, ◌-◌, ◌*◌, ◌/◌, ◌%◌, Bool, not, ◌&&◌, none, some, List, [], ◌∷◌, ◌++◌, ltb, leb, ◌==◌,
  if◌then◌else◌, length, take, list_eq, filter, find,
}
use bitsby.Cpm.Layout.{CpmDiskParams}
use bitsby.Cpm.Exec.{Reader, ok, err, bind, file_not_found}
use bitsby.Cpm.Block.{read_block}
use bitsby.Text.{trim_end}
use bitsby.Cpm.Names.{dot, colon}
use bitsby.Cpm.Directory.{CpmDirEntry, read_directory}
use bitsby.Cpm.Alloc.{is_active}
use bitsby.Cpm.Files.{records_per_entry}

pub record CpmFile : Type 0 where
  pub user : ℕ
  pub filename : List ℕ
  pub extension : List ℕ
  pub size : ℕ
  pub extents : List CpmDirEntry
  pub readonly : Bool
  pub system : Bool
  pub archive : Bool

-- A status of at most 0x1F in decimal.
abbrev pub decimal : ℕ → List ℕ
decimal n = if ltb n 10 then (48 + n) ∷ [] else (48 + n / 10) ∷ (48 + n % 10) ∷ []

-- `${entry.status}:${entry.filename}:${entry.extension}`
abbrev pub file_key : CpmDirEntry → List ℕ
file_key e = decimal e.status ++ (colon ∷ (e.filename ++ (colon ∷ e.extension)))

-- A Map from keys to entries, in the order of insertion.
abbrev pub FileMap : Type 0
FileMap = List (List ℕ × List CpmDirEntry)

abbrev pub add_extent : List ℕ → CpmDirEntry → FileMap → FileMap
add_extent key e [] = (key, e ∷ []) ∷ []
add_extent key e ((k, extents) ∷ m) =
    if list_eq k key then (k, extents ++ (e ∷ [])) ∷ m else (k, extents) ∷ add_extent key e m

abbrev pub group_entries : FileMap → List CpmDirEntry → FileMap
group_entries m [] = m
group_entries m (e ∷ es) = group_entries (if is_active e then add_extent (file_key e) e m else m) es

-- A stable sort by a test that one element does not stand behind another.
module _ {A : Type 0} (before : A → A → Bool) where
  abbrev pub insert_sorted : A → List A → List A
  insert_sorted x [] = x ∷ []
  insert_sorted x (y ∷ ys) = if before y x then y ∷ insert_sorted x ys else x ∷ y ∷ ys

  abbrev pub sort_onto : List A → List A → List A
  sort_onto sorted [] = sorted
  sort_onto sorted (x ∷ xs) = sort_onto (insert_sorted x sorted) xs

abbrev pub extent_number : CpmDirEntry → ℕ
extent_number e = e.extent_high * 32 + e.extent_low

abbrev pub extent_before : CpmDirEntry → CpmDirEntry → Bool
extent_before a b = leb (extent_number a) (extent_number b)

abbrev pub last_of : CpmDirEntry → List CpmDirEntry → CpmDirEntry
last_of first [] = first
last_of first (e ∷ es) = last_of e es

-- The records of all extents but the last, by their blocks in use.
abbrev pub full_records : CpmDiskParams → CpmDirEntry → List CpmDirEntry → ℕ
full_records p first [] = 0
full_records p first (e ∷ es) =
    length (filter (λ bp. not (bp == 0)) first.block_pointers) * (p.blocksize / p.seclen)
    + full_records p e es

-- Math.max(0, Math.floor(recordsPerEntry / 128) - 1)
abbrev pub extent_mask : CpmDiskParams → ℕ
extent_mask p = records_per_entry p / 128 - 1

unfoldable pub file_size : CpmDiskParams → CpmDirEntry → List CpmDirEntry → ℕ
file_size p first rest =
    let last = last_of first rest in
    let sub_extent = bit_and (last.extent_low % 32) (extent_mask p) in
    let size = (full_records p first rest + (sub_extent * 128 + last.rc)) * p.seclen in
    if ltb 0 last.bc && ltb 0 last.rc then size - p.seclen + last.bc else size

abbrev pub assemble : CpmDiskParams → List CpmDirEntry → List CpmFile
assemble p [] = []
assemble p (first ∷ rest) =
    record {
      user = first.status;
      filename = trim_end first.filename;
      extension = trim_end first.extension;
      size = file_size p first rest;
      extents = first ∷ rest;
      readonly = first.readonly;
      system = first.system;
      archive = first.archive;
    }
    ∷ []

abbrev pub assemble_all : CpmDiskParams → FileMap → List CpmFile
assemble_all p [] = []
assemble_all p ((key, extents) ∷ m) =
    assemble p (sort_onto extent_before [] extents) ++ assemble_all p m

module _ (name_before : List ℕ → List ℕ → Bool) where
  abbrev pub file_before : CpmFile → CpmFile → Bool
  file_before a b =
      if a.user == b.user
      then name_before (a.filename ++ (dot ∷ a.extension)) (b.filename ++ (dot ∷ b.extension))
      else ltb a.user b.user

  abbrev pub files_of : CpmDiskParams → List CpmDirEntry → List CpmFile
  files_of p entries = sort_onto file_before [] (assemble_all p (group_entries [] entries))

  unfoldable pub list_files : Reader (List CpmFile)
  list_files fs = bind (read_directory fs) (λ entries. ok (files_of fs.params entries))

-- The bytes of the allocated blocks, in order.
read_pointers : List ℕ → Reader (List ℕ)
read_pointers [] fs = ok []
read_pointers (bp ∷ bps) fs =
    let rest = read_pointers bps fs in
    if bp == 0
    then rest
    else bind (read_block bp fs) (λ block. bind rest (λ bytes. ok (block ++ bytes)))

read_extents : List CpmDirEntry → Reader (List ℕ)
unfolding read_pointers
read_extents [] fs = ok []
read_extents (e ∷ es) fs =
    bind (read_pointers e.block_pointers fs)
      (λ bytes. bind (read_extents es fs) (λ rest. ok (bytes ++ rest)))

abbrev pub is_file : List ℕ → List ℕ → ℕ → CpmFile → Bool
is_file filename ext user f =
    list_eq f.filename (trim_end filename) && list_eq f.extension (trim_end ext) && f.user == user

unfoldable pub read_file : (List ℕ → List ℕ → Bool) → List ℕ → List ℕ → ℕ → Reader (List ℕ)
unfolding read_extents list_files
read_file name_before filename ext user fs = bind (list_files name_before fs) λ files.
    elim (find (is_file filename ext user) files) [
      | none ↦ err file_not_found
      | some file ↦ bind (read_extents file.extents fs) (λ bytes. ok (take file.size bytes))
    ]
