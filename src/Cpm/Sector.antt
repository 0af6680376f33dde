-- ===== src/Cpm/Sector.antt =====
-- src/cpm-filesystem.ts: `readSector` and `writeSector`, the 128 data bytes of one logical sector
-- and the framing bytes round them.
pub mod Frame
pub mod ReadWrite
use Prim.Native.Nat.{bit_or}
use bitsby.Prelude.{
  ℕ, ◌+◌, ◌*◌, ◌%◌, Option, none, some, not, List, [], ◌∷◌, ltb, ◌==◌, if◌then◌else◌, length,
  get_or, set_byte, subarray, copy,
}
use bitsby.Cpm.Layout.{
  CpmDiskParams, sector_size, data_size, sectors_per_track, boot_data_offset, data_data_offset,
  system_tracks_of, logical_to_physical,
}
use bitsby.Cpm.Exec.{
  CpmFilesystem, Result, Exec, Reader, ok, err, sector_read_out_of_bounds, sector_data_length,
  sector_write_out_of_bounds,
}

abbrev pub data_offset_for_track : CpmDiskParams → ℕ → ℕ
data_offset_for_track p track =
    if ltb track (system_tracks_of p) then boot_data_offset else data_data_offset

-- The byte position of a physical sector.
abbrev pub sector_base : ℕ → ℕ → ℕ
sector_base track phys = (track * sectors_per_track + phys) * sector_size

-- An index past the skew table gives NaN, which passes the bounds test and selects nothing.
read_at : CpmFilesystem → ℕ → Option ℕ → Result (List ℕ)
read_at fs track none = ok []
read_at fs track (some phys) =
    let start = sector_base track phys + data_offset_for_track fs.params track in
    if ltb (length fs.image_data) (start + data_size)
    then err sector_read_out_of_bounds
    else ok (subarray fs.image_data start (start + data_size))

unfoldable pub read_sector : ℕ → ℕ → Reader (List ℕ)
unfolding read_at
read_sector track logical_sector fs =
    read_at fs track (logical_to_physical track logical_sector (system_tracks_of fs.params))

-- csum = (csum + data[i]) & 0xFF
abbrev pub sum_bytes : ℕ → List ℕ → ℕ
sum_bytes csum [] = csum
sum_bytes csum (b ∷ bs) = sum_bytes ((csum + b) % 256) bs

-- The boot framing, in the order of the source's writes.
unfoldable pub frame_boot : ℕ → ℕ → List ℕ → List ℕ → List ℕ
frame_boot track base bytes image =
    let image₁ = set_byte image base (bit_or track 0x80) in
    let image₂ = copy bytes image₁ (base + boot_data_offset) in
    let image₃ = set_byte image₂ (base + 131) 0xff in
    set_byte image₃ (base + 132) (sum_bytes 0 bytes)

unfoldable pub frame_data : ℕ → ℕ → ℕ → List ℕ → List ℕ → List ℕ
frame_data track phys base bytes image =
    let image₁ = set_byte image base (bit_or track 0x80) in
    let image₂ = copy bytes image₁ (base + data_data_offset) in
    let image₃ = set_byte image₂ (base + 1) ((phys * 17) % 32) in
    let image₄ = set_byte image₃ (base + 135) 0xff in
    let image₅ = set_byte image₄ (base + 136) 0 in
    let csum =
      (sum_bytes 0 bytes
        + get_or image₅ (base + 2) 0
        + get_or image₅ (base + 3) 0
        + get_or image₅ (base + 5) 0
        + get_or image₅ (base + 6) 0)
      % 256 in
    set_byte image₅ (base + 4) csum

abbrev pub frame_sector : CpmDiskParams → ℕ → ℕ → List ℕ → List ℕ → List ℕ
frame_sector p track phys bytes image =
    if ltb track (system_tracks_of p)
    then frame_boot track (sector_base track phys) bytes image
    else frame_data track phys (sector_base track phys) bytes image

-- A NaN position: the single-byte writes are ignored, and `copy` starts at 0.
write_at : ℕ → Option ℕ → List ℕ → Exec (Unit {0})
write_at track none bytes fs = (ok tt, record fs { image_data = copy bytes fs.image_data 0 })
write_at track (some phys) bytes fs =
    if ltb (length fs.image_data) (sector_base track phys + sector_size)
    then (err sector_write_out_of_bounds, fs)
    else (ok tt, record fs { image_data = frame_sector fs.params track phys bytes fs.image_data })

unfoldable pub write_sector : ℕ → ℕ → List ℕ → Exec (Unit {0})
unfolding write_at
write_sector track logical_sector bytes fs =
    if not (length bytes == data_size)
    then (err sector_data_length, fs)
    else write_at track (logical_to_physical track logical_sector (system_tracks_of fs.params))
        bytes fs
