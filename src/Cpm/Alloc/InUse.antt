-- ===== src/Cpm/Alloc/InUse.antt =====
-- When a block of a CP/M disk is taken, said without the bitmap of src/cpm-filesystem.ts.
use bitsby.Prelude.{ℕ, Bool, true, false, not, ◌&&◌, ◌||◌, List, [], ◌∷◌, ltb, leb, ◌==◌}
use bitsby.Cpm.Layout.{CpmDiskParams}
use bitsby.Cpm.Directory.{CpmDirEntry, dir_blocks}
use bitsby.Cpm.Alloc.{total_blocks, is_active}

-- A pointer to a block of the disk, 0 being "no block", that passes a test.
abbrev pub pointer_that : ℕ → (ℕ → Bool) → List ℕ → Bool
pointer_that total test [] = false
pointer_that total test (bp ∷ bps) =
    (ltb 0 bp && ltb bp total && test bp) || pointer_that total test bps

-- An active entry has such a pointer.
abbrev pub reference_that : ℕ → (ℕ → Bool) → List CpmDirEntry → Bool
reference_that total test [] = false
reference_that total test (e ∷ es) =
    (is_active e && pointer_that total test e.block_pointers) || reference_that total test es

-- A block is in use if it holds the directory, if an active entry refers to it, or if it lies
-- below every block that one refers to.
unfoldable pub in_use : CpmDiskParams → List CpmDirEntry → ℕ → Bool
in_use p entries b =
    ltb b (dir_blocks p)
    || reference_that (total_blocks p) (λ r. r == b) entries
    || (reference_that (total_blocks p) (λ r. true) entries
        && not (reference_that (total_blocks p) (λ r. leb r b) entries))
