-- ===== src/Cpm/Sector/Frame.antt =====
-- src/cpm-filesystem.ts: what the framing writes of `writeSector` do to the image.
use Prim.Native.Nat.{bit_or}
use bitsby.Prelude.{
  ℕ, ◌+◌, ◌%◌, ◌≤◌, ◌≡◌, ◌∙◌, ◌⊎◌, inl, inr, List, ltb, length, subarray, arith, length-set,
  length-copy, subarray-copy_self, subarray-copy_ne, subarray-set_ne, Bool-cases,
}
use bitsby.Cpm.Layout.{
  CpmDiskParams, sector_size, data_size, boot_data_offset, data_data_offset, system_tracks_of,
}
use bitsby.Cpm.Sector.{data_offset_for_track, sector_base, frame_boot, frame_data, frame_sector}

module _ (track base : ℕ) (bytes image : List ℕ) where
  length-frame_boot : length (frame_boot track base bytes image) ≡ length image
  unfolding frame_boot
  length-frame_boot = simp (length-set, length-copy)

  length-frame_data : (phys : ℕ) → length (frame_data track phys base bytes image) ≡ length image
  unfolding frame_data
  length-frame_data phys = simp (length-set, length-copy)

  -- A range that meets no byte of the sector is what it was.
  frame_boot-outside :
      (from to : ℕ)
      → (to ≤ base) ⊎ (base + sector_size ≤ from)
      → length bytes ≡ data_size
      → subarray (frame_boot track base bytes image) from to ≡ subarray image from to
  unfolding frame_boot
  frame_boot-outside from to h e =
      subarray-set_ne _ (base + 132) _ from to (omega arith)
      ∙ subarray-set_ne _ (base + 131) _ from to (omega arith)
      ∙ subarray-copy_ne bytes _ (base + boot_data_offset) from to (omega arith)
      ∙ subarray-set_ne image base _ from to (omega arith)

  frame_data-outside :
      (phys from to : ℕ)
      → (to ≤ base) ⊎ (base + sector_size ≤ from)
      → length bytes ≡ data_size
      → subarray (frame_data track phys base bytes image) from to ≡ subarray image from to
  unfolding frame_data
  frame_data-outside phys from to h e =
      subarray-set_ne _ (base + 4) _ from to (omega arith)
      ∙ subarray-set_ne _ (base + 136) _ from to (omega arith)
      ∙ subarray-set_ne _ (base + 135) _ from to (omega arith)
      ∙ subarray-set_ne _ (base + 1) _ from to (omega arith)
      ∙ subarray-copy_ne bytes _ (base + data_data_offset) from to (omega arith)
      ∙ subarray-set_ne image base _ from to (omega arith)

  -- The data bytes of the sector are those that were written.
  frame_boot-payload :
      base + sector_size ≤ length image
      → length bytes ≡ data_size
      → subarray
          (frame_boot track base bytes image)
          (base + boot_data_offset)
          (base + boot_data_offset + data_size)
        ≡ bytes
  unfolding frame_boot
  frame_boot-payload fits e =
      subarray-set_ne _ (base + 132) _ (base + 3) (base + 3 + 128) (omega arith)
      ∙ subarray-set_ne _ (base + 131) _ (base + 3) (base + 3 + 128) (omega arith)
      ∙ subarray-copy_self bytes _ (base + 3) (base + 3 + 128) (omega arith)
          (omega (arith, length-set image base (bit_or track 128 % 256)))

  frame_data-payload :
      (phys : ℕ)
      → base + sector_size ≤ length image
      → length bytes ≡ data_size
      → subarray
          (frame_data track phys base bytes image)
          (base + data_data_offset)
          (base + data_data_offset + data_size)
        ≡ bytes
  unfolding frame_data
  frame_data-payload phys fits e =
      subarray-set_ne _ (base + 4) _ (base + 7) (base + 7 + 128) (omega arith)
      ∙ subarray-set_ne _ (base + 136) _ (base + 7) (base + 7 + 128) (omega arith)
      ∙ subarray-set_ne _ (base + 135) _ (base + 7) (base + 7 + 128) (omega arith)
      ∙ subarray-set_ne _ (base + 1) _ (base + 7) (base + 7 + 128) (omega arith)
      ∙ subarray-copy_self bytes _ (base + 7) (base + 7 + 128) (omega arith)
          (omega (arith, length-set image base (bit_or track 128 % 256)))

module _ (p : CpmDiskParams) (track phys : ℕ) (bytes image : List ℕ) where
  pub length-frame_sector : length (frame_sector p track phys bytes image) ≡ length image
  length-frame_sector = ground (
    arith,
    length-frame_boot track (sector_base track phys) bytes image,
    length-frame_data track (sector_base track phys) bytes image phys,
  )

  pub frame_sector-outside :
      (from to : ℕ)
      → (to ≤ sector_base track phys) ⊎ (sector_base track phys + sector_size ≤ from)
      → length bytes ≡ data_size
      → subarray (frame_sector p track phys bytes image) from to ≡ subarray image from to
  frame_sector-outside from to h e = elim (Bool-cases (ltb track (system_tracks_of p))) [
    | inl boot ↦ rw boot (frame_boot-outside track (sector_base track phys) bytes image from to h e)
    | inr rest ↦
        rw rest (frame_data-outside track (sector_base track phys) bytes image phys from to h e)
  ]

  pub frame_sector-payload :
      sector_base track phys + sector_size ≤ length image
      → length bytes ≡ data_size
      → subarray
          (frame_sector p track phys bytes image)
          (sector_base track phys + data_offset_for_track p track)
          (sector_base track phys + data_offset_for_track p track + data_size)
        ≡ bytes
  frame_sector-payload fits e = elim (Bool-cases (ltb track (system_tracks_of p))) [
    | inl boot ↦ rw boot (frame_boot-payload track (sector_base track phys) bytes image fits e)
    | inr rest ↦ rw rest (frame_data-payload track (sector_base track phys) bytes image phys fits e)
  ]
