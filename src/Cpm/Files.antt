-- ===== src/Cpm/Files.antt =====
-- src/cpm-filesystem.ts: `deleteFile` and `writeFile`.
use bitsby.Prelude.{
  ℕ, zero, suc, ◌+◌, ◌-◌, ◌*◌, ◌/◌, ◌%◌, min, max, Bool, true, false, ◌&&◌, none, some, List, [],
  ◌∷◌, ◌++◌, ltb, ◌==◌, if◌then◌else◌, length, set, replicate, subarray, copy, list_eq, find_index,
}
use bitsby.Cpm.Layout.{CpmDiskParams}
use bitsby.Cpm.Exec.{
  Result, Exec, ok, err, ◌>>=◌, ◌>>◌, asks, gets, throw, attempt, file_not_found, directory_full,
}
use bitsby.Cpm.Block.{write_block}
use bitsby.Text.{pad_end, trim_end}
use bitsby.Cpm.Names.{Normalized, normalize_filename, dot}
use bitsby.Cpm.Directory.{CpmDirEntry, read_directory, write_directory}
use bitsby.Cpm.Alloc.{allocate_blocks}

abbrev pub deleted : ℕ
deleted = 0xe5

-- The entry belongs to the file of that user and padded name.
abbrev pub belongs : ℕ → List ℕ → List ℕ → CpmDirEntry → Bool
belongs user filename extension entry =
    entry.status == user && list_eq entry.filename filename && list_eq entry.extension extension

-- The entries with those of a file marked, and whether there was one.
abbrev pub mark_deleted : (CpmDirEntry → Bool) → List CpmDirEntry → List CpmDirEntry × Bool
mark_deleted test [] = ([], false)
mark_deleted test (entry ∷ entries) =
    let (rest, found) = mark_deleted test entries in
    if test entry then (record entry { status = deleted } ∷ rest, true) else (entry ∷ rest, found)

-- `filename.trimEnd().padEnd(8, ' ')`
abbrev pub padded_name : List ℕ → ℕ → List ℕ
padded_name s n = pad_end (trim_end s) n

unfoldable pub delete_file : List ℕ → List ℕ → ℕ → Exec (Unit {0})
delete_file filename ext user = do
  entries ← asks read_directory
  let marked = mark_deleted (belongs user (padded_name filename 8) (padded_name ext 3)) entries
  if marked.1 then write_directory marked.0 else throw file_not_found

unfoldable pub create_dir_entry : Bool → List ℕ → List ℕ → ℕ → ℕ → ℕ → ℕ → List ℕ → ℕ → CpmDirEntry
create_dir_entry large filename extension user extent_low extent_high rc pointers bc = record {
  status = user;
  filename = pad_end filename 8;
  extension = pad_end extension 3;
  extent_low = extent_low;
  bc = bc;
  extent_high = extent_high;
  rc = rc;
  block_pointers = pointers ++ replicate ((if large then 8 else 16) - length pointers) 0;
  raw_attributes = 0;
  readonly = false;
  system = false;
  archive = false;
}

-- Math.ceil(a / b)
abbrev pub ceil_div : ℕ → ℕ → ℕ
ceil_div a b = (a + b - 1) / b

-- The bytes of block `i` of a file of `blocks_needed` blocks: the data, Ctrl-Z to the end of the
-- last record, and zeros.
unfoldable pub file_block : CpmDiskParams → List ℕ → ℕ → ℕ → List ℕ
file_block p bytes blocks_needed i =
    let src_off = i * p.blocksize in
    let copy_len = min p.blocksize (length bytes - src_off) in
    let in_last_record = length bytes % p.seclen in
    let block_data =
      copy (subarray bytes src_off (src_off + copy_len)) (replicate p.blocksize 0) 0 in
    if i == blocks_needed - 1 && ltb 0 in_last_record
    then copy (replicate (p.seclen - in_last_record) 0x1a) block_data copy_len
    else block_data

write_blocks : List ℕ → ℕ → ℕ → List ℕ → Exec (Unit {0})
unfolding file_block
write_blocks bytes blocks_needed i [] fs = (ok tt, fs)
write_blocks bytes blocks_needed i (block ∷ blocks) fs =
    (write_block block (file_block fs.params bytes blocks_needed i)
        >> write_blocks bytes blocks_needed (i + 1) blocks)
      fs

abbrev pub blocks_per_extent : ℕ
blocks_per_extent = 8

abbrev pub records_per_entry : CpmDiskParams → ℕ
records_per_entry p = blocks_per_extent * (p.blocksize / p.seclen)

-- The record count of directory entry `dir_idx` of `count`.
unfoldable pub record_count : CpmDiskParams → ℕ → ℕ → ℕ → ℕ
record_count p size count dir_idx =
    if dir_idx == count - 1
    then (let rc = ceil_div (size - dir_idx * blocks_per_extent * p.blocksize) p.seclen in
        if ltb 128 rc then (if rc % 128 == 0 then 128 else rc % 128) else rc)
    else if ltb 128 (records_per_entry p)
    then 128
    else records_per_entry p

unfoldable pub file_entry : CpmDiskParams → Bool → Normalized → ℕ → ℕ → ℕ → List ℕ → ℕ → CpmDirEntry
unfolding record_count create_dir_entry
file_entry p large norm user size blocks_needed allocated dir_idx =
    let start_block = dir_idx * blocks_per_extent in
    let end_block = min (start_block + blocks_per_extent) blocks_needed in
    let logical_extent = dir_idx * max 1 (records_per_entry p / 128) in
    create_dir_entry large norm.filename norm.extension user (logical_extent % 32)
      (logical_extent / 32 % 64)
      (record_count p size (ceil_div blocks_needed blocks_per_extent) dir_idx)
      (subarray allocated start_block end_block) 0

-- entries[freeSlot] = ..., for the entries from `dir_idx` on
unfoldable pub place_entries :
    (ℕ → CpmDirEntry) → ℕ → ℕ → List CpmDirEntry → Result (List CpmDirEntry)
place_entries entry zero dir_idx entries = ok entries
place_entries entry (suc rounds) dir_idx entries =
    elim (find_index (λ e. e.status == deleted) entries) [
      | none ↦ err directory_full
      | some slot ↦ place_entries entry rounds (dir_idx + 1) (set entries slot (entry dir_idx))
    ]

write_empty : Normalized → ℕ → Exec (Unit {0})
unfolding place_entries create_dir_entry
write_empty norm user = do
  entries ← asks read_directory
  large ← gets (λ fs. fs.use_large_pointers)
  placed ← asks (λ fs.
      place_entries (λ _. create_dir_entry large norm.filename norm.extension user 0 0 0 [] 0) 1 0
        entries)
  write_directory placed

write_contents : Normalized → List ℕ → ℕ → ℕ → Exec (Unit {0})
unfolding write_blocks place_entries file_entry
write_contents norm bytes user blocks_needed = do
  allocated ← asks (allocate_blocks blocks_needed)
  write_blocks bytes blocks_needed 0 allocated
  entries ← asks read_directory
  placed ← asks (λ fs.
      place_entries
        (file_entry fs.params fs.use_large_pointers norm user (length bytes) blocks_needed
          allocated)
        (ceil_div blocks_needed blocks_per_extent) 0 entries)
  write_directory placed

unfoldable pub write_file : List ℕ → List ℕ → List ℕ → ℕ → Exec (Unit {0})
unfolding write_empty write_contents
write_file filename ext bytes user fs =
    let norm = normalize_filename (filename ++ dot ∷ ext) in
    let blocks_needed = ceil_div (length bytes) fs.params.blocksize in
    (attempt (delete_file norm.filename norm.extension user)
        >> (if blocks_needed == 0
            then write_empty norm user
            else write_contents norm bytes user blocks_needed))
      fs
