-- ===== src/Cpm/Alloc.antt =====
-- src/cpm-filesystem.ts: the allocation bitmap and `allocateBlocks`.
pub mod InUse
pub mod Bitmap
pub mod FirstFit
use bitsby.Prelude.{
  ℕ, zero, suc, ◌+◌, ◌-◌, ◌*◌, ◌/◌, ◌≡◌, Bool, true, false, not, ◌&&◌, ◌||◌, Option, none, some,
  List, [], ◌∷◌, ltb, ◌==◌, if◌then◌else◌, length, set, replicate, filter,
}
use bitsby.Cpm.Layout.{CpmDiskParams}
use bitsby.Cpm.Exec.{CpmFilesystem, Result, Reader, ok, err, bind, disk_full}
use bitsby.Cpm.Directory.{CpmDirEntry, dir_blocks, read_directory}

abbrev pub total_blocks : CpmDiskParams → ℕ
total_blocks p = ((p.tracks - p.boottrk) * p.sectrk * p.seclen) / p.blocksize

-- Neither deleted nor of an invalid status.
abbrev pub is_active : CpmDirEntry → Bool
is_active entry = not (entry.status == 0xe5 || ltb 0x1f entry.status)

-- for (i = ...; rounds left) if (i < bitmap.length) bitmap[i] = true
abbrev pub mark_range : ℕ → ℕ → List Bool → List Bool
mark_range zero i bitmap = bitmap
mark_range (suc rounds) i bitmap =
    mark_range rounds (i + 1) (if ltb i (length bitmap) then set bitmap i true else bitmap)

-- The bitmap and `firstUsed`, where `none` is Infinity.
pub record Marks : Type 0 where
  pub bitmap : List Bool
  pub first_used : Option ℕ

-- if (bp < firstUsed) firstUsed = bp
abbrev pub lower : ℕ → Option ℕ → Option ℕ
lower bp none = some bp
lower bp (some f) = if ltb bp f then some bp else some f

abbrev pub mark_block : ℕ → Marks → ℕ → Marks
mark_block total m bp =
    if ltb 0 bp && ltb bp total
    then record { bitmap = set m.bitmap bp true; first_used = lower bp m.first_used }
    else m

abbrev pub mark_pointers : ℕ → Marks → List ℕ → Marks
mark_pointers total m [] = m
mark_pointers total m (bp ∷ bps) = mark_pointers total (mark_block total m bp) bps

abbrev pub mark_entries : ℕ → Marks → List CpmDirEntry → Marks
mark_entries total m [] = m
mark_entries total m (entry ∷ entries) =
    mark_entries total (if is_active entry then mark_pointers total m entry.block_pointers else m)
      entries

-- Reserve the gap between the directory blocks and the first block in use.
abbrev pub reserve_gap : ℕ → Marks → List Bool
reserve_gap dir m = elim m.first_used [
  | none ↦ m.bitmap
  | some f ↦ if ltb dir f then mark_range (f - dir) dir m.bitmap else m.bitmap
]

unfoldable pub bitmap_of : CpmDiskParams → List CpmDirEntry → List Bool
bitmap_of p entries = reserve_gap (dir_blocks p) (
    mark_entries (total_blocks p)
      (record {
        bitmap = mark_range (dir_blocks p) 0 (replicate (total_blocks p) false);
        first_used = none;
      })
      entries)

unfoldable pub build_allocation_bitmap : Reader (List Bool)
unfolding bitmap_of
build_allocation_bitmap fs = bind (read_directory fs) (λ entries. ok (bitmap_of fs.params entries))

-- The first `count` clear positions, from position `i` on.
abbrev pub allocate_from : List Bool → ℕ → ℕ → List ℕ
allocate_from [] i count = []
allocate_from (used ∷ bitmap) i zero = []
allocate_from (used ∷ bitmap) i (suc count) = elim used [
  | true ↦ allocate_from bitmap (i + 1) (suc count)
  | false ↦ i ∷ allocate_from bitmap (i + 1) count
]

abbrev pub allocate_in : ℕ → List Bool → Result (List ℕ)
allocate_in count bitmap =
    let allocated = allocate_from bitmap 0 count in
    if ltb (length allocated) count then err disk_full else ok allocated

unfoldable pub allocate_blocks : ℕ → Reader (List ℕ)
allocate_blocks count fs = bind (build_allocation_bitmap fs) (allocate_in count)

-- `CpmFreeSpace`
pub record CpmFreeSpace : Type 0 where
  pub free_blocks : ℕ
  pub free_bytes : ℕ
  pub blocks_total : ℕ
  pub bytes_total : ℕ
  pub used_blocks : ℕ
  pub used_bytes : ℕ
  pub directory_entries_free : ℕ
  pub directory_entries_total : ℕ

unfoldable pub get_free_space : Reader CpmFreeSpace
get_free_space fs = bind (build_allocation_bitmap fs) λ bitmap. bind (read_directory fs) λ entries.
    let total = length bitmap in
    let used = length (filter (λ b. b) bitmap) in
    let used_dir_entries = length (filter is_active entries) in
    ok (record {
      free_blocks = total - used;
      free_bytes = (total - used) * fs.params.blocksize;
      blocks_total = total;
      bytes_total = total * fs.params.blocksize;
      used_blocks = used;
      used_bytes = used * fs.params.blocksize;
      directory_entries_free = fs.params.maxdir - used_dir_entries;
      directory_entries_total = fs.params.maxdir;
    })
