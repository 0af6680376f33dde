-- ===== src/Cpm/Block.antt =====
-- src/cpm-filesystem.ts: `readBlock` and `writeBlock`, an allocation block as a run of logical
-- sectors behind the boot tracks.
pub mod Run
pub mod ReadWrite
use bitsby.Prelude.{
  ℕ, zero, suc, ◌+◌, ◌*◌, ◌/◌, ◌%◌, List, not, ◌==◌, if◌then◌else◌, length, replicate, subarray,
  copy,
}
use bitsby.Cpm.Layout.{CpmDiskParams}
use bitsby.Cpm.Exec.{CpmFilesystem, Reader, Exec, ok, err, bind, ◌>>=◌, ◌>>◌, block_data_length}
use bitsby.Cpm.Sector.{read_sector, write_sector}

-- The presets divide exactly.
abbrev pub sectors_per_block : CpmDiskParams → ℕ
sectors_per_block p = p.blocksize / p.seclen

-- The track and the sector on it of a sector counted from the first data track.
abbrev pub track_of : CpmDiskParams → ℕ → ℕ
track_of p abs_sec = p.boottrk + abs_sec / p.sectrk

abbrev pub log_sec_of : CpmDiskParams → ℕ → ℕ
log_sec_of p abs_sec = abs_sec % p.sectrk

-- for (i = ...; rounds left) { readSector; copy into result }
read_block_from : ℕ → ℕ → ℕ → List ℕ → Reader (List ℕ)
read_block_from zero i absolute_sector result fs = ok result
read_block_from (suc rounds) i absolute_sector result fs =
    bind
      (read_sector (track_of fs.params (absolute_sector + i))
        (log_sec_of fs.params (absolute_sector + i)) fs)
      λ sector_data.
        read_block_from rounds (i + 1) absolute_sector
          (copy sector_data result (i * fs.params.seclen)) fs

unfoldable pub read_block : ℕ → Reader (List ℕ)
unfolding read_block_from
read_block block_number fs =
    read_block_from (sectors_per_block fs.params) 0 (block_number * sectors_per_block fs.params)
      (replicate fs.params.blocksize 0) fs

unfoldable pub write_block_from : ℕ → ℕ → ℕ → List ℕ → Exec (Unit {0})
write_block_from zero i absolute_sector bytes fs = (ok tt, fs)
write_block_from (suc rounds) i absolute_sector bytes fs =
    (write_sector (track_of fs.params (absolute_sector + i))
          (log_sec_of fs.params (absolute_sector + i))
          (subarray bytes (i * fs.params.seclen) ((i + 1) * fs.params.seclen))
        >> write_block_from rounds (i + 1) absolute_sector bytes)
      fs

unfoldable pub write_block : ℕ → List ℕ → Exec (Unit {0})
unfolding write_block_from
write_block block_number bytes fs =
    if not (length bytes == fs.params.blocksize)
    then (err block_data_length, fs)
    else write_block_from (sectors_per_block fs.params) 0
        (block_number * sectors_per_block fs.params) bytes fs
