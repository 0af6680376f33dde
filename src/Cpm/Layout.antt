-- ===== src/Cpm/Layout.antt =====
-- src/cpm-filesystem.ts: the physical layout of a sector, the disk parameter blocks, the skew
-- tables. Sizes and offsets are those of the constant `CDBL`.
pub mod Skew
use Prim.Native.String.{String}
use text.Mathlib.Text.{◌==◌ as str_eq}
use bitsby.Prelude.{
  ℕ, ◌-◌, ◌*◌, ◌%◌, Option, none, some, List, [], ◌∷◌, map, ltb, leb, ◌&&◌, get_elem?,
  if◌then◌else◌,
}

abbrev pub sector_size : ℕ
sector_size = 137

abbrev pub data_size : ℕ
data_size = 128

abbrev pub sectors_per_track : ℕ
sectors_per_track = 32

abbrev pub track_size : ℕ
track_size = 4384

abbrev pub boot_data_offset : ℕ
boot_data_offset = 3

abbrev pub data_data_offset : ℕ
data_data_offset = 7

abbrev pub altair_8inch_system_tracks : ℕ
altair_8inch_system_tracks = 6

-- `CpmDiskParams`, without the optional AL0 and AL1 bytes, which nothing reads.
pub record CpmDiskParams : Type 0 where
  pub seclen : ℕ
  pub tracks : ℕ
  pub sectrk : ℕ
  pub blocksize : ℕ
  pub maxdir : ℕ
  pub boottrk : ℕ
  pub system_tracks : Option ℕ

abbrev pub params_8inch : CpmDiskParams
params_8inch = record {
  seclen = 128;
  tracks = 77;
  sectrk = 32;
  blocksize = 2048;
  maxdir = 64;
  boottrk = 2;
  system_tracks = some altair_8inch_system_tracks;
}

abbrev pub params_minidisk : CpmDiskParams
params_minidisk = record {
  seclen = 128;
  tracks = 17;
  sectrk = 32;
  blocksize = 1024;
  maxdir = 32;
  boottrk = 2;
  system_tracks = none;
}

abbrev pub params_8mb : CpmDiskParams
params_8mb = record {
  seclen = 128;
  tracks = 2048;
  sectrk = 32;
  blocksize = 4096;
  maxdir = 1024;
  boottrk = 6;
  system_tracks = none;
}

-- `params.systemTracks ?? params.tracks`
abbrev pub system_tracks_of : CpmDiskParams → ℕ
system_tracks_of p = elim p.system_tracks [ none ↦ p.tracks | some n ↦ n ]

pub data DiskFormat : Type 0 where
  eight_inch minidisk eight_mb : DiskFormat

-- The text of a format identifier.
abbrev pub format_name : DiskFormat → String
format_name eight_inch = "8inch"
format_name minidisk = "minidisk"
format_name eight_mb = "8mb"

unfoldable pub params_for_format : String → Option CpmDiskParams
params_for_format format =
    if str_eq format "8inch"
    then some params_8inch
    else if str_eq format "minidisk"
    then some params_minidisk
    else if str_eq format "8mb"
    then some params_8mb
    else none

unfoldable pub infer_format_from_size : ℕ → Option DiskFormat
infer_format_from_size size =
    if leb 74528 size && leb size 74624
    then some minidisk
    else if leb 337568 size && leb size 337664
    then some eight_inch
    else if leb 8000000 size
    then some eight_mb
    else none

abbrev pub mits_base_skew : List ℕ
mits_base_skew =
    1 ∷ 9 ∷ 17 ∷ 25 ∷ 3 ∷ 11 ∷ 19 ∷ 27 ∷ 5 ∷ 13 ∷ 21 ∷ 29 ∷ 7 ∷ 15 ∷ 23 ∷ 31 ∷ 2 ∷ 10 ∷ 18 ∷ 26 ∷ 4
    ∷ 12 ∷ 20 ∷ 28 ∷ 6 ∷ 14 ∷ 22 ∷ 30 ∷ 8 ∷ 16 ∷ 24 ∷ 32 ∷ []

unfoldable pub build_boot_skew : List ℕ
build_boot_skew = map (λ v. v - 1) mits_base_skew

unfoldable pub build_data_skew : List ℕ
build_data_skew = map (λ v. ((v - 1) * 17) % 32) mits_base_skew

-- `none` is the `undefined` of an index past the table.
unfoldable pub logical_to_physical : ℕ → ℕ → ℕ → Option ℕ
unfolding build_boot_skew build_data_skew
logical_to_physical track logical_sector system_tracks =
    get_elem? (if ltb track system_tracks then build_boot_skew else build_data_skew) logical_sector
