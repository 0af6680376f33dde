-- ===== src/Cpm/Alloc/FirstFit.antt =====
-- src/cpm-filesystem.ts: which blocks `allocateBlocks` gives, and when it throws.
use native.Mathlib.Decide.{ℕ_discrete}
use bitsby.Prelude.{
  min, lt→ltb, le→ltb_false, ℕ, zero, suc, ◌+◌, ◌<◌, ◌≤◌, ◌≡◌, ap, ◌∙◌, sym, Bool, true, false, not,
  List, [], ◌∷◌, if◌then◌else◌, length, get_or, arith,
}
use bitsby.Cpm.Exec.{CpmFilesystem, ok, err, disk_full}
use bitsby.Cpm.Directory.{CpmDirEntry, read_directory}
use bitsby.Cpm.Alloc.{
  total_blocks, bitmap_of, build_allocation_bitmap, allocate_from, allocate_blocks,
}
use bitsby.Cpm.Alloc.InUse.{in_use}
use bitsby.Cpm.Alloc.Bitmap.{bitmap_of-in_use}

-- The number of `b` from `i` below `i + n` that pass a test.
abbrev pub count_range : ℕ → ℕ → (ℕ → Bool) → ℕ
count_range zero i test = 0
count_range (suc n) i test = (if test i then 1 else 0) + count_range n (i + 1) test

-- `blocks` are the first `count` numbers from `i` below `top` that are free, in ascending order:
-- each is free, and what lies before it, back to the one before, is not.
abbrev pub FirstFree : (ℕ → Bool) → ℕ → ℕ → List ℕ → Type 0
FirstFree taken top i [] = Unit
FirstFree taken top i (b ∷ bs) =
    (i ≤ b)
    × (b < top)
    × (taken b ≡ false)
    × ((c : ℕ) → i ≤ c → c < b → taken c ≡ true)
    × FirstFree taken top (b + 1) bs

FirstFree-earlier :
    (taken : ℕ → Bool) (top i : ℕ) (bs : List ℕ)
    → taken i ≡ true
    → FirstFree taken top (i + 1) bs
    → FirstFree taken top i bs
FirstFree-earlier taken top i [] h f = tt
FirstFree-earlier taken top i (b ∷ bs) h (lo, hi, free, gap, rest) = (
  omega arith,
  hi,
  free,
  λ c l u. elim (ℕ_discrete i c) [ yes e ↦ ap taken (sym e) ∙ h | no ne ↦ gap c (omega arith) u ],
  rest,
)

-- The loop finds the first clear positions, as many as asked for or as there are.
allocate_from-FirstFree :
    (taken : ℕ → Bool) (bitmap : List Bool) (i count top : ℕ)
    → i + length bitmap ≡ top
    → ((k : ℕ) → k < length bitmap → get_or bitmap k false ≡ taken (i + k))
    → FirstFree taken top i (allocate_from bitmap i count)
      × (length (allocate_from bitmap i count)
          ≡ min count (count_range (length bitmap) i (λ b. not (taken b))))
allocate_from-FirstFree taken [] i count top e same = (tt, omega arith)
allocate_from-FirstFree taken (used ∷ bitmap) i zero top e same = (tt, omega arith)
allocate_from-FirstFree taken (true ∷ bitmap) i (suc count) top e same =
    let here : taken i ≡ true = ap taken (omega arith) ∙ sym (same 0 (omega arith)) in
    let (first, size) =
      allocate_from-FirstFree taken bitmap (i + 1) (suc count) top (omega arith)
        (λ k lt. same (suc k) (omega arith) ∙ ap taken (omega arith)) in
    (
      FirstFree-earlier taken top i (allocate_from bitmap (i + 1) (suc count)) here first,
      rw here (omega (arith, size)),
    )
allocate_from-FirstFree taken (false ∷ bitmap) i (suc count) top e same =
    let here : taken i ≡ false = ap taken (omega arith) ∙ sym (same 0 (omega arith)) in
    let (first, size) =
      allocate_from-FirstFree taken bitmap (i + 1) count top (omega arith)
        (λ k lt. same (suc k) (omega arith) ∙ ap taken (omega arith)) in
    (
      (omega arith, omega arith, here, λ c lo hi. absurd (omega arith), first),
      rw here (omega (arith, size)),
    )

-- On a disk whose directory can be read: where as many blocks are free as asked for, exactly that
-- many are given, the first free ones in ascending order, none of them in use and none passed
-- over; where fewer are free, `disk_full` is thrown.
pub allocate_blocks-first_fit :
    (fs : CpmFilesystem) (count : ℕ) (entries : List CpmDirEntry)
    → read_directory fs ≡ ok entries
    → let taken = in_use fs.params entries in
      let free = count_range (total_blocks fs.params) 0 (λ b. not (taken b)) in
      (count ≤ free
        → (bs : List ℕ) × (allocate_blocks count fs ≡ ok bs)
          × (length bs ≡ count)
          × FirstFree taken (total_blocks fs.params) 0 bs)
      × (free < count → allocate_blocks count fs ≡ err disk_full)
unfolding allocate_blocks build_allocation_bitmap
allocate_blocks-first_fit fs count entries e =
    let taken = in_use fs.params entries in
    let bitmap = bitmap_of fs.params entries in
    let (size, marks) = bitmap_of-in_use fs.params entries in
    let (first, found) =
      allocate_from-FirstFree taken bitmap 0 count (total_blocks fs.params) (omega (arith, size))
        (λ k lt. marks k (omega (arith, size)) ∙ ap taken (omega arith)) in
    let found' = found ∙ ap (λ n. min count (count_range n 0 (λ b. not (taken b)))) size in
    (
      λ enough. (
        allocate_from bitmap 0 count,
        rw (e, le→ltb_false (length (allocate_from bitmap 0 count)) count (omega (arith, found'))),
        omega (arith, found'),
        first,
      ),
      λ short. rw (e, lt→ltb (length (allocate_from bitmap 0 count)) count (omega (arith, found'))),
    )
