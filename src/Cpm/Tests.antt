-- ===== src/Cpm/Tests.antt =====
-- src/cpm-filesystem.ts on a disk of one track: runs of the code, and the theorems at inputs that
-- meet their hypotheses.
use bitsby.Prelude.{
  ℕ, ◌<◌, ◌≤◌, ◌≡◌, refl, ◌⊎◌, true, false, none, some, List, [], ◌∷◌, arith, length, get_or,
  replicate, length-replicate, ◌/◌,
}
use bitsby.Cpm.Layout.{CpmDiskParams, logical_to_physical}
use bitsby.Cpm.Layout.Skew.{logical_to_physical-bijective}
use bitsby.Cpm.Exec.{CpmFilesystem, ok, err, disk_full}
use bitsby.Cpm.Sector.{read_sector, write_sector}
use bitsby.Cpm.Sector.ReadWrite.{HasTrack, Written, write_sector-Written}
use bitsby.Cpm.Block.{read_block, write_block}
use bitsby.Cpm.Block.Run.{IsGeometry}
use bitsby.Cpm.Block.ReadWrite.{HasBlocks, WroteBlock, write_block-WroteBlock}
use bitsby.Cpm.Directory.{CpmDirEntry, parse_dir_entry, serialize_dir_entry, read_directory}
use bitsby.Cpm.Directory.Fields.{IsEntry}
use bitsby.Cpm.Directory.Entry.{parse-serialize, parse-IsEntry}
use bitsby.Cpm.Directory.Rewrite.{serialize-parse}
use bitsby.Cpm.Alloc.{allocate_blocks, bitmap_of}
use bitsby.Cpm.Alloc.InUse.{in_use}
use bitsby.Cpm.Alloc.Bitmap.{bitmap_of-in_use}
use bitsby.Cpm.Alloc.FirstFit.{FirstFree, allocate_blocks-first_fit}

-- One track, no boot track, four blocks of 1024 bytes, one of them the directory.
abbrev tiny_params : CpmDiskParams
tiny_params = record {
  seclen = 128;
  tracks = 1;
  sectrk = 32;
  blocksize = 1024;
  maxdir = 32;
  boottrk = 0;
  system_tracks = none;
}

blank_image : List ℕ
blank_image = replicate 4384 0xe5

length-blank_image : length blank_image ≡ 4384
unfolding blank_image
length-blank_image = length-replicate {A = ℕ} 4384 0xe5

abbrev tiny : CpmFilesystem
tiny = record { image_data = blank_image; params = tiny_params; use_large_pointers = false }

abbrev erased : CpmDirEntry
erased = record {
  status = 0xe5;
  filename = replicate 8 0x65;
  extension = replicate 3 0x65;
  extent_low = 0xe5;
  bc = 0xe5;
  extent_high = 0xe5;
  rc = 0xe5;
  block_pointers = replicate 16 0xe5;
  raw_attributes = 7;
  readonly = true;
  system = true;
  archive = true;
}

read_directory-tiny : read_directory tiny ≡ ok (replicate 32 erased)
unfolding read_directory read_block read_sector logical_to_physical parse_dir_entry blank_image
read_directory-tiny = refl

tiny-IsGeometry : IsGeometry tiny_params
tiny-IsGeometry = record { sector = refl; per_track = refl; whole = refl }

tiny-HasTrack : HasTrack tiny 0
tiny-HasTrack = omega (arith, length-blank_image)

track_zero : (a : ℕ) → a < 32 → a / 32 ≡ 0
track_zero a h = omega arith

tiny-HasBlocks : HasBlocks tiny 4
tiny-HasBlocks a lt = omega (arith, length-blank_image, track_zero a lt)

logical_to_physical-bijective_example :
    (l : ℕ) × (l < 32)
    × (logical_to_physical 7 l 6 ≡ some 9)
    × ((m : ℕ) → logical_to_physical 7 m 6 ≡ some 9 → m ≡ l)
logical_to_physical-bijective_example = logical_to_physical-bijective 7 6 9 (omega arith)

write_sector-Written_example :
    ((write_sector 0 3 (replicate 128 7) tiny).0 ≡ ok tt)
    × Written 0 3 (replicate 128 7) tiny (write_sector 0 3 (replicate 128 7) tiny).1
write_sector-Written_example =
    write_sector-Written 0 3 (replicate 128 7) tiny (omega arith) tiny-HasTrack refl

write_block-WroteBlock_example :
    ((write_block 2 (replicate 1024 7) tiny).0 ≡ ok tt)
    × WroteBlock 2 4 (replicate 1024 7) tiny (write_block 2 (replicate 1024 7) tiny).1
write_block-WroteBlock_example =
    write_block-WroteBlock 2 4 (replicate 1024 7) tiny tiny-IsGeometry tiny-HasBlocks (omega arith)
      refl

-- FOO.TXT of user 3, read-only, in blocks 1 and 2
abbrev foo : CpmDirEntry
foo = record {
  status = 3;
  filename = 70 ∷ 79 ∷ 79 ∷ replicate 5 32;
  extension = 84 ∷ 88 ∷ 84 ∷ [];
  extent_low = 0;
  bc = 0;
  extent_high = 0;
  rc = 9;
  block_pointers = 1 ∷ 2 ∷ replicate 14 0;
  raw_attributes = 4;
  readonly = true;
  system = false;
  archive = false;
}

foo-IsEntry : IsEntry false foo
foo-IsEntry = record {
  status = omega arith;
  name_length = refl;
  name_ascii = omega arith;
  ext_length = refl;
  ext_ascii = omega arith;
  counts = omega arith;
  pointer_count = refl;
  pointers = omega arith;
  attributes = refl;
}

parse-serialize_example :
    (parse_dir_entry false (serialize_dir_entry false foo (replicate 64 0xe5) 32) 32 ≡ foo)
    × ((i : ℕ)
        → (i < 32) ⊎ (64 ≤ i)
        → get_or (serialize_dir_entry false foo (replicate 64 0xe5) 32) i 0
          ≡ get_or (replicate 64 0xe5) i 0)
parse-serialize_example = parse-serialize false foo (replicate 64 0xe5) 32 foo-IsEntry (omega arith)

serialize-parse_example :
    serialize_dir_entry false (parse_dir_entry false (replicate 64 0x61) 32) (replicate 64 0x61) 32
    ≡ replicate 64 0x61
serialize-parse_example =
    serialize-parse false (replicate 64 0x61) 32 (omega arith) (omega arith) (omega arith)

allocate_blocks-first_fit_example :
    (3 ≤ 3
      → (bs : List ℕ) × (allocate_blocks 3 tiny ≡ ok bs)
        × (length bs ≡ 3)
        × FirstFree (in_use tiny_params (replicate 32 erased)) 4 0 bs)
    × (3 < 3 → allocate_blocks 3 tiny ≡ err disk_full)
unfolding in_use
allocate_blocks-first_fit_example =
    allocate_blocks-first_fit tiny 3 (replicate 32 erased) read_directory-tiny

bitmap_of-in_use_example :
    (length (bitmap_of tiny_params (foo ∷ [])) ≡ 4)
    × ((b : ℕ)
        → b < 4
        → get_or (bitmap_of tiny_params (foo ∷ [])) b false ≡ in_use tiny_params (foo ∷ []) b)
bitmap_of-in_use_example = bitmap_of-in_use tiny_params (foo ∷ [])

parse-IsEntry_example : IsEntry true (parse_dir_entry true (replicate 64 0xe5) 32)
parse-IsEntry_example = parse-IsEntry true (replicate 64 0xe5) 32 (omega arith) (omega arith)
