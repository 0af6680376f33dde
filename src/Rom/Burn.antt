-- ===== src/Rom/Burn.antt =====
-- src/services/rom-image.ts: `detectFormat` and `burnImage`. An address is held plus 2^31, as in
-- the chunks.
use bitsby.Prelude.{
  ℕ, ◌+◌, ◌-◌, min, max, Bool, true, false, ◌&&◌, ◌||◌, Option, none, some, List, [], ◌∷◌, ◌==◌,
  ltb, leb, length, drop, replicate, copy, list_eq, map, if◌then◌else◌,
}
use bitsby.Rom.Hex.{
  RomImageError, Result, done, failed, Chunk, bias, and_then, parse_intel_hex, no_data,
  size_not_positive, outside_window, spans_too_much,
}

pub data ImageFormat : Type 0 where
  bin ihex : ImageFormat

pub data Addressing : Type 0 where
  file base : Addressing

pub record BurnRegion : Type 0 where
  pub base_address : ℕ
  pub size : ℕ

pub record BurnResult : Type 0 where
  pub image : List ℕ
  pub bytes_written : ℕ
  pub low_addr : Option ℕ
  pub high_addr : ℕ
  pub addressing : Addressing
  pub format : ImageFormat

-- filename.toLowerCase(), for the letters of ASCII
abbrev pub to_lower : List ℕ → List ℕ
to_lower = map (λ c. if leb b'A' c && leb c b'Z' then c + 32 else c)

-- lower.endsWith(suffix)
abbrev pub ends_with : List ℕ → List ℕ → Bool
ends_with text suffix =
    leb (length suffix) (length text) && list_eq (drop (length text - length suffix) text) suffix

abbrev pub format_by_name : List ℕ → Option ImageFormat
format_by_name filename =
    let lower = to_lower filename in
    if ends_with lower (b'.' ∷ b'h' ∷ b'e' ∷ b'x' ∷ [])
      || ends_with lower (b'.' ∷ b'i' ∷ b'h' ∷ b'e' ∷ b'x' ∷ [])
      || ends_with lower (b'.' ∷ b'i' ∷ b'h' ∷ b'x' ∷ [])
    then some ihex
    else if ends_with lower (b'.' ∷ b'b' ∷ b'i' ∷ b'n' ∷ [])
        || ends_with lower (b'.' ∷ b'r' ∷ b'o' ∷ b'm' ∷ [])
    then some bin
    else none

-- The bytes after leading spaces, tabs and line breaks.
abbrev pub sniff : List ℕ → ImageFormat
sniff [] = bin
sniff (b ∷ bytes) =
    let rest = sniff bytes in
    if b == 0x20 || b == 0x09 || b == 0x0a || b == 0x0d
    then rest
    else if b == 0x3a
    then ihex
    else bin

abbrev pub or_sniff : List ℕ → Option ImageFormat → ImageFormat
or_sniff bytes none = sniff bytes
or_sniff bytes (some format) = format

-- An empty file name is as good as none.
unfoldable pub detect_format : List ℕ → List ℕ → ImageFormat
detect_format bytes filename =
    or_sniff bytes (if length filename == 0 then none else format_by_name filename)

abbrev pub all_empty : List Chunk → Bool
all_empty [] = true
all_empty (c ∷ chunks) = length c.bytes == 0 && all_empty chunks

-- The lowest address, with `none` for Infinity.
abbrev pub min_addr : Option ℕ → List Chunk → Option ℕ
min_addr m [] = m
min_addr none (c ∷ chunks) = min_addr (some c.addr) chunks
min_addr (some m) (c ∷ chunks) = min_addr (some (min m c.addr)) chunks

-- The locals of the loop: `lowOff` with `none` for Infinity, and `highOff` plus one.
pub record Burned : Type 0 where
  pub image : List ℕ
  pub bytes_written : ℕ
  pub low_off : Option ℕ
  pub high_end : ℕ

abbrev pub lower : Option ℕ → ℕ → Option ℕ
lower none off = some off
lower (some low) off = some (min low off)

abbrev pub place : ℕ → List ℕ → Burned → Burned
place off bytes st = record {
  image = copy bytes st.image off;
  bytes_written = st.bytes_written + length bytes;
  low_off = lower st.low_off off;
  high_end = max st.high_end (off + length bytes);
}

-- The error of a chunk that does not fit, by the addressing.
abbrev pub misfit : Addressing → ℕ → ℕ → Chunk → RomImageError
misfit file anchor size c = outside_window c.addr (length c.bytes)
misfit base anchor size c = spans_too_much size

-- The loop over the chunks.
abbrev pub burn_from : Addressing → ℕ → ℕ → List Chunk → Burned → Result Burned
burn_from addressing anchor size [] st = done st
burn_from addressing anchor size (c ∷ chunks) st = elim (length c.bytes == 0) [
  | true ↦ burn_from addressing anchor size chunks st
  | false ↦ elim (ltb c.addr anchor || ltb size (c.addr - anchor + length c.bytes)) [
    | true ↦ failed (misfit addressing anchor size c)
    | false ↦ burn_from addressing anchor size chunks (place (c.addr - anchor) c.bytes st)
  ]
]

abbrev pub low_of : BurnRegion → Option ℕ → Option ℕ
low_of region none = none
low_of region (some low) = some (region.base_address + low)

abbrev pub anchor_of : Addressing → BurnRegion → Option ℕ → ℕ
anchor_of file region m = region.base_address + bias
anchor_of base region none = 0
anchor_of base region (some m) = m

abbrev pub result_of : ImageFormat → Addressing → BurnRegion → Burned → Result BurnResult
result_of format addressing region st = done (record {
  image = st.image;
  bytes_written = st.bytes_written;
  low_addr = low_of region st.low_off;
  high_addr = region.base_address + st.high_end - 1;
  addressing = addressing;
  format = format;
})

abbrev pub burn_chunks : ImageFormat → Addressing → BurnRegion → List Chunk → Result BurnResult
burn_chunks format addressing region chunks =
    if all_empty chunks
    then failed no_data
    else and_then
        (burn_from addressing (anchor_of addressing region (min_addr none chunks)) region.size
          chunks
          (record {
            image = replicate region.size 0;
            bytes_written = 0;
            low_off = none;
            high_end = 0;
          }))
        (result_of format addressing region)

abbrev pub chunks_in : ImageFormat → BurnRegion → List ℕ → Result (List Chunk)
chunks_in bin region bytes = done (record { addr = region.base_address + bias; bytes = bytes } ∷ [])
chunks_in ihex region bytes = parse_intel_hex bytes

unfoldable pub burn_image : List ℕ → ImageFormat → Addressing → BurnRegion → Result BurnResult
unfolding parse_intel_hex
burn_image bytes format addressing region =
    if region.size == 0
    then failed size_not_positive
    else and_then (chunks_in format region bytes) (burn_chunks format addressing region)
