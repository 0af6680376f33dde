-- ===== src/Rom/Tests.antt =====
-- Witnesses for src/services/rom-image.ts: a boot stub of four bytes in a window of eight.
use bitsby.Prelude.{◌≡◌, refl, true, false, [], ◌∷◌, map, arith, some}
use bitsby.Rom.Hex.{done, Chunk, parse_intel_hex}
use bitsby.Rom.Burn.{ihex, file, base, BurnRegion, burn_image, detect_format}
use bitsby.Rom.Window.{Burnt, burn_image-Burnt}
use bitsby.Rom.Printed.{print_hex}
use bitsby.Rom.File.{at_base, parse_intel_hex-print_hex}

abbrev stub : Chunk
stub = record { addr = 0xf802; bytes = 0xc3 ∷ 0 ∷ 0xf8 ∷ [] }

abbrev patch : Chunk
patch = record { addr = 0xf803; bytes = 7 ∷ [] }

abbrev region : BurnRegion
region = record { base_address = 0xf800; size = 8 }

burnt_file :
    burn_image (print_hex true (stub ∷ patch ∷ [])) ihex file region
    ≡ done (record {
      image = 0 ∷ 0 ∷ 0xc3 ∷ 7 ∷ 0xf8 ∷ 0 ∷ 0 ∷ 0 ∷ [];
      bytes_written = 4;
      low_addr = some 0xf802;
      high_addr = 0xf804;
      addressing = file;
      format = ihex;
    })
unfolding burn_image
burnt_file = refl

detected : detect_format (print_hex false (stub ∷ [])) [] ≡ ihex
unfolding detect_format
detected = refl

burn_image-Burnt_example :
    Burnt base region
      (map at_base (stub ∷ patch ∷ []))
      (burn_image (print_hex true (stub ∷ patch ∷ [])) ihex base region)
burn_image-Burnt_example =
    burn_image-Burnt (print_hex true (stub ∷ patch ∷ [])) ihex base region
      (map at_base (stub ∷ patch ∷ [])) (omega arith)
      (parse_intel_hex-print_hex true stub (patch ∷ []) (
        (omega arith, omega arith, (omega arith, (omega arith, (omega arith, tt)))),
        ((omega arith, omega arith, (omega arith, tt)), tt),
      ))

parse_intel_hex-print_hex_example :
    parse_intel_hex (print_hex true (stub ∷ patch ∷ [])) ≡ done (map at_base (stub ∷ patch ∷ []))
parse_intel_hex-print_hex_example = parse_intel_hex-print_hex true stub (patch ∷ []) (
  (omega arith, omega arith, (omega arith, (omega arith, (omega arith, tt)))),
  ((omega arith, omega arith, (omega arith, tt)), tt),
)
