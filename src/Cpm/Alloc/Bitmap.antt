-- ===== src/Cpm/Alloc/Bitmap.antt =====
-- src/cpm-filesystem.ts: the bitmap of `buildAllocationBitmap` marks the blocks in use.
use bitsby.Prelude.{
  ℕ, zero, suc, ◌+◌, ◌-◌, ◌<◌, ◌≡◌, refl, ap, ◌∙◌, sym, Bool, true, false, not, ◌&&◌, ◌||◌, Option,
  none, some, List, [], ◌∷◌, ltb, leb, ◌==◌, if◌then◌else◌, length, get_or, set, replicate, arith,
  length-set, length-replicate, Bool-cases, inl, inr,
}
use bitsby.Cpm.Layout.{CpmDiskParams}
use bitsby.Cpm.Directory.{CpmDirEntry, dir_blocks}
use bitsby.Cpm.Alloc.{
  total_blocks, is_active, mark_range, Marks, lower, mark_block, mark_pointers, mark_entries,
  reserve_gap, bitmap_of,
}
use bitsby.Cpm.Alloc.InUse.{pointer_that, reference_that, in_use}

or_false : (x : Bool) → (x || false) ≡ x
or_false true = refl
or_false false = refl

or_true : (x : Bool) → (x || true) ≡ true
or_true true = refl
or_true false = refl

or_assoc : (x y z : Bool) → ((x || y) || z) ≡ (x || (y || z))
or_assoc true y z = refl
or_assoc false y z = refl

-- One mark, as a test.
get_or-mark :
    (bitmap : List Bool) (i b : ℕ)
    → b < length bitmap
    → get_or (set bitmap i true) b false ≡ (get_or bitmap b false || i == b)
get_or-mark [] i b h = absurd (omega arith)
get_or-mark (x ∷ xs) zero zero h = ground arith
get_or-mark (x ∷ xs) zero (suc b) h = ground arith
get_or-mark (x ∷ xs) (suc i) zero h = ground arith
get_or-mark (x ∷ xs) (suc i) (suc b) h = ground (arith, get_or-mark xs i b (omega arith))

length-mark_range : (n i : ℕ) (bitmap : List Bool) → length (mark_range n i bitmap) ≡ length bitmap
length-mark_range zero i bitmap = refl
length-mark_range (suc n) i bitmap = elim (Bool-cases (ltb i (length bitmap))) [
  | inl h ↦ rw h (length-mark_range n (i + 1) (set bitmap i true) ∙ length-set bitmap i true)
  | inr h ↦ rw h (length-mark_range n (i + 1) bitmap)
]

get_or-mark_range :
    (n i : ℕ) (bitmap : List Bool) (b : ℕ)
    → b < length bitmap
    → get_or (mark_range n i bitmap) b false ≡ (get_or bitmap b false || (leb i b && ltb b (i + n)))
get_or-mark_range zero i bitmap b h = ground arith
get_or-mark_range (suc n) i bitmap b h = elim (Bool-cases (ltb i (length bitmap))) [
  | inl lt ↦ rw lt (
      ground (
        arith,
        get_or-mark_range n (i + 1) (set bitmap i true) b (omega (arith, length-set bitmap i true)),
        get_or-mark bitmap i b h,
      ))
  | inr ge ↦ rw ge (ground (arith, get_or-mark_range n (i + 1) bitmap b h))
]

get_or-replicate : (n b : ℕ) → get_or (replicate n false) b false ≡ false
get_or-replicate zero b = refl
get_or-replicate (suc n) zero = refl
get_or-replicate (suc n) (suc b) = get_or-replicate n b

-- firstUsed ≤ b
abbrev first_le : Option ℕ → ℕ → Bool
first_le none b = false
first_le (some f) b = leb f b

abbrev is_some : Option ℕ → Bool
is_some none = false
is_some (some f) = true

-- The marks tell of the directory blocks and of the references seen, `seen` being the test
-- whether one of those passes a test.
record Tracks (total dir : ℕ) (seen : (ℕ → Bool) → Bool) (m : Marks) : Type 0 where
  size : length m.bitmap ≡ total
  marked : (b : ℕ) → b < total → get_or m.bitmap b false ≡ (ltb b dir || seen (λ r. r == b))
  first : (b : ℕ) → first_le m.first_used b ≡ seen (λ r. leb r b)
  any : is_some m.first_used ≡ seen (λ r. true)

first_le-lower : (bp b : ℕ) (f : Option ℕ) → first_le (lower bp f) b ≡ (first_le f b || leb bp b)
first_le-lower bp b none = ground arith
first_le-lower bp b (some f) = ground arith

is_some-lower : (bp : ℕ) (f : Option ℕ) → is_some (lower bp f) ≡ true
is_some-lower bp none = refl
is_some-lower bp (some f) = ground arith

module _ (total dir : ℕ) where
  mark_block-Tracks :
      (seen : (ℕ → Bool) → Bool) (m : Marks) (bp : ℕ)
      → Tracks total dir seen m
      → Tracks total dir (λ t. seen t || (ltb 0 bp && ltb bp total && t bp)) (mark_block total m bp)
  mark_block-Tracks seen m bp t = elim (Bool-cases (ltb 0 bp && ltb bp total)) [
    | inl h ↦ rw h (record {
      size = length-set m.bitmap bp true ∙ t.size;
      marked = λ b lt.
          get_or-mark m.bitmap bp b (omega (arith, t.size))
          ∙ ap (λ x. x || bp == b) (t.marked b lt)
          ∙ or_assoc (ltb b dir) (seen (λ r. r == b)) (bp == b);
      first = λ b. first_le-lower bp b m.first_used ∙ ap (λ x. x || leb bp b) (t.first b);
      any = is_some-lower bp m.first_used ∙ sym (or_true (seen (λ r. true)));
    })
    | inr h ↦ rw h (record {
      size = t.size;
      marked = λ b lt. t.marked b lt ∙ ap (λ x. ltb b dir || x) (sym (or_false _));
      first = λ b. t.first b ∙ sym (or_false _);
      any = t.any ∙ sym (or_false _);
    })
  ]

  -- The same marks, with another name for what was seen.
  Tracks-cong :
      (seen seen' : (ℕ → Bool) → Bool) (m : Marks)
      → ((t : ℕ → Bool) → seen t ≡ seen' t)
      → Tracks total dir seen m
      → Tracks total dir seen' m
  Tracks-cong seen seen' m e t = record {
    size = t.size;
    marked = λ b lt. t.marked b lt ∙ ap (λ x. ltb b dir || x) (e _);
    first = λ b. t.first b ∙ e _;
    any = t.any ∙ e _;
  }

  mark_pointers-Tracks :
      (bps : List ℕ) (seen : (ℕ → Bool) → Bool) (m : Marks)
      → Tracks total dir seen m
      → Tracks total dir (λ t. seen t || pointer_that total t bps) (mark_pointers total m bps)
  mark_pointers-Tracks [] seen m t = Tracks-cong seen _ m (λ t. sym (or_false _)) t
  mark_pointers-Tracks (bp ∷ bps) seen m t =
      Tracks-cong _ _ (mark_pointers total (mark_block total m bp) bps)
        (λ t. or_assoc (seen t) (ltb 0 bp && ltb bp total && t bp) (pointer_that total t bps))
        (mark_pointers-Tracks bps _ (mark_block total m bp) (mark_block-Tracks seen m bp t))

  mark_entry-Tracks :
      (active : Bool) (bps : List ℕ) (seen : (ℕ → Bool) → Bool) (m : Marks)
      → Tracks total dir seen m
      → Tracks total dir
          (λ t. seen t || (active && pointer_that total t bps))
          (if active then mark_pointers total m bps else m)
  mark_entry-Tracks true bps seen m t = mark_pointers-Tracks bps seen m t
  mark_entry-Tracks false bps seen m t = Tracks-cong seen _ m (λ t. sym (or_false _)) t

  mark_entries-Tracks :
      (entries : List CpmDirEntry) (seen : (ℕ → Bool) → Bool) (m : Marks)
      → Tracks total dir seen m
      → Tracks total dir
          (λ t. seen t || reference_that total t entries)
          (mark_entries total m entries)
  mark_entries-Tracks [] seen m t = Tracks-cong seen _ m (λ t. sym (or_false _)) t
  mark_entries-Tracks (e ∷ es) seen m t =
      Tracks-cong _ _
        (mark_entries total (if is_active e then mark_pointers total m e.block_pointers else m) es)
        (λ t.
          or_assoc (seen t) (is_active e && pointer_that total t e.block_pointers)
            (reference_that total t es))
        (mark_entries-Tracks es _ _ (mark_entry-Tracks (is_active e) e.block_pointers seen m t))

  -- The gap below the first block in use is marked at the end.
  reserve_gap-marks :
      (seen : (ℕ → Bool) → Bool) (m : Marks) (b : ℕ)
      → Tracks total dir seen m
      → b < total
      → get_or (reserve_gap dir m) b false
        ≡ (ltb b dir || seen (λ r. r == b) || (seen (λ r. true) && not (seen (λ r. leb r b))))
  reserve_gap-marks seen m b t lt = gap m.first_used (t.first b) t.any
    where
      gap :
          (f : Option ℕ)
          → first_le f b ≡ seen (λ r. leb r b)
          → is_some f ≡ seen (λ r. true)
          → get_or (reserve_gap dir (record m { first_used = f })) b false
            ≡ (ltb b dir || seen (λ r. r == b) || (seen (λ r. true) && not (seen (λ r. leb r b))))
      gap none e a = ground (arith, t.marked b lt)
      gap (some f) e a =
          ground (
            arith,
            t.marked b lt,
            get_or-mark_range (f - dir) dir m.bitmap b (omega (arith, t.size)),
          )

  length-reserve_gap : (m : Marks) → length (reserve_gap dir m) ≡ length m.bitmap
  length-reserve_gap m = gap m.first_used
    where
      gap :
          (f : Option ℕ) → length (reserve_gap dir (record m { first_used = f })) ≡ length m.bitmap
      gap none = refl
      gap (some f) = elim (Bool-cases (ltb dir f)) [
        | inl h ↦ rw h (length-mark_range (f - dir) dir m.bitmap)
        | inr h ↦ rw h
      ]

-- The bitmap before any entry was seen.
Tracks-initial :
    (total dir : ℕ)
    → Tracks total dir
        (λ t. false)
        (record { bitmap = mark_range dir 0 (replicate total false); first_used = none })
Tracks-initial total dir = record {
  size = length-mark_range dir 0 (replicate total false) ∙ length-replicate total false;
  marked = λ b lt.
      get_or-mark_range dir 0 (replicate total false) b
        (omega (arith, length-replicate total false))
      ∙ ground (arith, get_or-replicate total b);
  first = λ b. refl;
  any = refl;
}

-- The bitmap has a place for each block of the disk, and it is set exactly for those in use.
pub bitmap_of-in_use :
    (p : CpmDiskParams) (entries : List CpmDirEntry)
    → (length (bitmap_of p entries) ≡ total_blocks p)
      × ((b : ℕ) → b < total_blocks p → get_or (bitmap_of p entries) b false ≡ in_use p entries b)
unfolding bitmap_of in_use
bitmap_of-in_use p entries =
    let total = total_blocks p in
    let dir = dir_blocks p in
    let m =
      mark_entries total
        (record { bitmap = mark_range dir 0 (replicate total false); first_used = none }) entries in
    let t = mark_entries-Tracks total dir entries _ _ (Tracks-initial total dir) in
    (length-reserve_gap total dir m ∙ t.size, λ b lt. reserve_gap-marks total dir _ m b t lt)
