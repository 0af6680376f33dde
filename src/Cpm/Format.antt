-- ===== src/Cpm/Format.antt =====
-- src/cpm-filesystem.ts: `formatImage`, `detectParams`, `validateDirectory` and the constructor.
use Prim.Native.Nat.{bit_or}
use bitsby.Prelude.{
  ℕ, zero, suc, ◌+◌, ◌-◌, ◌*◌, ◌/◌, ◌%◌, Bool, true, false, not, ◌&&◌, ◌||◌, Option, none, some,
  List, ltb, leb, ◌==◌, if◌then◌else◌, length, get_or, set_byte, replicate, copy,
}
use bitsby.Cpm.Layout.{
  CpmDiskParams, params_8inch, params_minidisk, system_tracks_of, sectors_per_track, sector_size,
  data_size, track_size,
}
use bitsby.Cpm.Exec.{CpmFilesystem}
use bitsby.Cpm.Sector.{sector_base}

unfoldable pub format_boot : ℕ → ℕ → List ℕ → List ℕ
format_boot track base image =
    let image₁ = copy (replicate sector_size 0xe5) image base in
    let image₂ = set_byte image₁ base (bit_or track 0x80) in
    let image₃ = set_byte (set_byte image₂ (base + 1) 0) (base + 2) 1 in
    let image₄ = set_byte image₃ (base + 131) 0xff in
    let image₅ = set_byte (set_byte image₄ (base + 133) 0) (base + 134) 0 in
    let image₆ = set_byte (set_byte image₅ (base + 135) 0) (base + 136) 0 in
    set_byte image₆ (base + 132) ((0xe5 * data_size) % 256)

unfoldable pub format_data : ℕ → ℕ → ℕ → List ℕ → List ℕ
format_data track phys base image =
    let image₁ = copy (replicate sector_size 0xe5) image base in
    let image₂ = set_byte image₁ base (bit_or track 0x80) in
    let image₃ = set_byte image₂ (base + 1) ((phys * 17) % 32) in
    let image₄ = set_byte image₃ (base + 2) 1 in
    let image₅ = set_byte (set_byte image₄ (base + 135) 0xff) (base + 136) 0 in
    let csum =
      ((0xe5 * data_size) % 256
        + get_or image₅ (base + 2) 0
        + get_or image₅ (base + 3) 0
        + get_or image₅ (base + 5) 0
        + get_or image₅ (base + 6) 0)
      % 256 in
    set_byte image₅ (base + 4) csum

abbrev pub format_sector : CpmDiskParams → ℕ → ℕ → List ℕ → List ℕ
format_sector p track phys image =
    if ltb track (system_tracks_of p)
    then format_boot track (sector_base track phys) image
    else format_data track phys (sector_base track phys) image

format_track : CpmDiskParams → ℕ → ℕ → ℕ → List ℕ → List ℕ
format_track p track zero phys image = image
format_track p track (suc rounds) phys image =
    format_track p track rounds (phys + 1) (format_sector p track phys image)

format_tracks : CpmDiskParams → ℕ → ℕ → List ℕ → List ℕ
format_tracks p zero track image = image
format_tracks p (suc rounds) track image =
    format_tracks p rounds (track + 1) (format_track p track sectors_per_track 0 image)

unfoldable pub format_image : CpmDiskParams → List ℕ
unfolding format_tracks format_track format_boot format_data
format_image p =
    format_tracks p p.tracks 0 (replicate (p.tracks * sectors_per_track * sector_size) 0)

-- The printable test of the 11 name bytes, from index `i` on.
abbrev pub ascii_name : List ℕ → ℕ → ℕ → ℕ → Bool
ascii_name image entry_off i zero = true
ascii_name image entry_off i (suc n) =
    let ch = get_or image (entry_off + i) 0 % 128 in
    not (ltb ch 0x20 || ltb 0x7e ch) && ascii_name image entry_off (i + 1) n

abbrev pub valid_entry : List ℕ → ℕ → Bool
valid_entry image entry_off =
    let status = get_or image entry_off 0 in
    status == 0xe5 || (leb status 0x0f && ascii_name image entry_off 1 11)

-- The `break` when an entry would pass the end of the image.
abbrev pub count_valid : List ℕ → ℕ → ℕ → ℕ → ℕ
count_valid image offset e zero = 0
count_valid image offset e (suc n) =
    let entry_off = offset + e * 32 in
    let rest = count_valid image offset (e + 1) n in
    if ltb (length image) (entry_off + 32)
    then 0
    else (if valid_entry image entry_off then 1 + rest else rest)

-- `INTERLEAVE_TABLE[0]` is 0.
unfoldable pub validate_directory : List ℕ → CpmDiskParams → Bool
validate_directory image p =
    let offset = (p.boottrk * sectors_per_track + 0) * sector_size + 3 in
    if ltb (length image) (offset + data_size) then false else leb 2 (count_valid image offset 0 4)

candidate_params : ℕ → Option CpmDiskParams
candidate_params size =
    if leb 74528 size && leb size 74624
    then some params_minidisk
    else if leb 337568 size && leb size 337664
    then some params_8inch
    else (let tracks = size / track_size in
        if ltb tracks 3
        then none
        else if leb tracks 20
        then some (record params_minidisk { tracks = tracks })
        else some (record params_8inch { tracks = tracks }))

unfoldable pub detect_params : List ℕ → Option CpmDiskParams
unfolding candidate_params validate_directory
detect_params image = elim (candidate_params (length image)) [
  | none ↦ none
  | some p ↦ if validate_directory image p then some p else none
]

-- `params || detectParams(imageData) || PARAMS_8INCH`
abbrev chosen_params : List ℕ → Option CpmDiskParams → CpmDiskParams
chosen_params image (some p) = p
chosen_params image none = elim (detect_params image) [ none ↦ params_8inch | some p ↦ p ]

unfoldable pub new_filesystem : List ℕ → Option CpmDiskParams → CpmFilesystem
unfolding detect_params
new_filesystem image params =
    let p = chosen_params image params in
    record {
      image_data = image;
      params = p;
      use_large_pointers = ltb 255 (((p.tracks - p.boottrk) * p.sectrk * p.seclen) / p.blocksize);
    }
