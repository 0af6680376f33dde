-- ===== src/Cpm/Block/ReadWrite.antt =====
-- src/cpm-filesystem.ts: `readBlock` after `writeBlock`.
use native.Mathlib.Decide.{dec_lt}
use mathlib.Core.Path.{fun_ext}
use bitsby.Prelude.{
  ℕ, zero, suc, ◌==◌, true, ◌+◌, ◌-◌, ◌*◌, ◌<◌, ◌≤◌, ◌≡◌, refl, ap, ◌∙◌, sym, ◌⊎◌, inl, inr, ◌≢◌,
  List, arith, length, get_or, replicate, subarray, copy, length-copy, length-subarray,
  get_or-copy_in, get_or-copy_ne, get_or-subarray, list_ext, length-replicate,
}
use bitsby.Cpm.Layout.{CpmDiskParams, data_size}
use bitsby.Cpm.Exec.{CpmFilesystem, ok, bind}
use bitsby.Cpm.Block.{sectors_per_block, read_block_from, read_block, write_block_from, write_block}
use bitsby.Cpm.Block.Run.{IsGeometry, HasSectors, read_absolute, write_block_from-WroteRun}

-- The rounds of the read loop, each with the bytes of its sector, fill the result.
read_block_from-eq :
    (rounds i a : ℕ) (bytes result : List ℕ) (fs : CpmFilesystem)
    → fs.params.seclen ≡ data_size
    → ((k : ℕ)
        → i ≤ k
        → k < i + rounds
        → read_absolute (a + k) fs ≡ ok (subarray bytes (k * data_size) ((k + 1) * data_size)))
    → length bytes ≡ (i + rounds) * data_size
    → length result ≡ length bytes
    → ((j : ℕ) → j < i * data_size → get_or result j 0 ≡ get_or bytes j 0)
    → read_block_from rounds i a result fs ≡ ok bytes
unfolding read_block_from
read_block_from-eq zero i a bytes result fs g reads size e same =
    ap ok (list_ext result bytes e (λ j lt. same j (omega arith)))
read_block_from-eq (suc rounds) i a bytes result fs g reads size e same =
    let piece = subarray bytes (i * data_size) ((i + 1) * data_size) in
    let piece_size : length piece ≡ data_size =
      omega (arith, length-subarray bytes (i * data_size) ((i + 1) * data_size) (omega arith)) in
    simp (reads i (omega arith) (omega arith), g)
      (read_block_from-eq rounds (i + 1) a bytes (copy piece result (i * data_size)) fs g
        (λ k lo hi. reads k (omega arith) (omega arith)) (omega arith)
        (length-copy piece result (i * data_size) ∙ e)
        λ j lt. elim (dec_lt j (i * data_size)) [
          | yes below ↦ get_or-copy_ne piece result (i * data_size) j 0 (inl below) ∙ same j below
          | no above ↦
              get_or-copy_in piece result (i * data_size) (j - i * data_size) j 0 (omega arith)
                (omega arith) (omega arith)
              ∙ get_or-subarray bytes (i * data_size) ((i + 1) * data_size) (j - i * data_size) 0
                  (omega arith)
              ∙ ap (λ m. get_or bytes m 0) (omega arith)
        ])

-- The blocks of a disk up to a bound lie in its image.
abbrev pub HasBlocks : CpmFilesystem → ℕ → Type 0
HasBlocks fs n = HasSectors fs (n * sectors_per_block fs.params)

-- What a client may know of a block write.
pub record WroteBlock (block n : ℕ) (bytes : List ℕ) (fs fs' : CpmFilesystem) : Type 0 where
  pub same_params : fs'.params ≡ fs.params
  pub same_pointers : fs'.use_large_pointers ≡ fs.use_large_pointers
  pub same_length : length fs'.image_data ≡ length fs.image_data
  pub reads : read_block block fs' ≡ ok bytes
  pub others : (b : ℕ) → b < n → b ≢ block → read_block b fs' ≡ read_block b fs

-- A run of sectors that read the same give the same block.
read_block_from-cong :
    (rounds i a : ℕ) (result : List ℕ) (fs fs' : CpmFilesystem)
    → fs'.params ≡ fs.params
    → ((k : ℕ) → i ≤ k → k < i + rounds → read_absolute (a + k) fs' ≡ read_absolute (a + k) fs)
    → read_block_from rounds i a result fs' ≡ read_block_from rounds i a result fs
unfolding read_block_from
read_block_from-cong zero i a result fs fs' e same = refl
read_block_from-cong (suc rounds) i a result fs fs' e same =
    let same_i = simp e at (same i (omega arith) (omega arith)) in
    simp (e, same_i)
      (ap (bind (read_absolute (a + i) fs)) (
        fun_ext λ sector_data.
          read_block_from-cong rounds (i + 1) a (copy sector_data result (i * fs.params.seclen)) fs
            fs' e (λ k lo hi. same k (omega arith) (omega arith))))

module _ (block spb : ℕ) (fs : CpmFilesystem) where
  read_block-eq :
      (bytes : List ℕ)
      → sectors_per_block fs.params ≡ spb
      → IsGeometry fs.params
      → ((k : ℕ)
          → k < spb
          → read_absolute (block * spb + k) fs
            ≡ ok (subarray bytes (k * data_size) ((k + 1) * data_size)))
      → length bytes ≡ fs.params.blocksize
      → read_block block fs ≡ ok bytes
  unfolding read_block
  read_block-eq bytes e g reads size =
      let size-of-result = length-replicate {A = ℕ} fs.params.blocksize 0 in
      simp e (
        read_block_from-eq spb 0 (block * spb) bytes (replicate fs.params.blocksize 0) fs g.sector
          (λ k lo hi. reads k (omega arith)) (omega (arith, g.whole, e)) (size-of-result ∙ sym size)
          (λ j lt. absurd (omega arith)))

  read_block-cong :
      (fs' : CpmFilesystem)
      → sectors_per_block fs.params ≡ spb
      → fs'.params ≡ fs.params
      → ((k : ℕ)
          → k < spb
          → read_absolute (block * spb + k) fs' ≡ read_absolute (block * spb + k) fs)
      → read_block block fs' ≡ read_block block fs
  unfolding read_block
  read_block-cong fs' e q same =
      simp (q, e)
        (read_block_from-cong spb 0 (block * spb) (replicate fs.params.blocksize 0) fs fs' q
          (λ k lo hi. same k (omega arith)))

==-true : {a b : ℕ} → a ≡ b → (a == b) ≡ true
==-true e = ground arith

blocks-apart :
    (b block spb k : ℕ)
    → b ≢ block
    → k < spb
    → (b * spb + k < block * spb + 0) ⊎ (block * spb + 0 + spb ≤ b * spb + k)
blocks-apart b block spb k ne lt = elim (dec_lt b block) [
  | yes below ↦ inl (grind arith)
  | no above ↦ inr (grind arith)
]

-- A write of a whole block to a disk that holds it succeeds; the block reads back the bytes, and
-- every other block of the disk reads as before.
pub write_block-WroteBlock :
    (block n : ℕ) (bytes : List ℕ) (fs : CpmFilesystem)
    → IsGeometry fs.params
    → HasBlocks fs n
    → block < n
    → length bytes ≡ fs.params.blocksize
    → ((write_block block bytes fs).0 ≡ ok tt)
      × WroteBlock block n bytes fs (write_block block bytes fs).1
unfolding write_block read_block
write_block-WroteBlock block n bytes fs g has h size =
    let spb = sectors_per_block fs.params in
    let run = write_block_from spb 0 (block * spb) bytes in
    let fits : block * spb + 0 + spb ≤ n * spb = grind arith in
    let (done, w) =
      write_block_from-WroteRun spb 0 (block * spb) (n * spb) bytes fs g has fits
        (omega (arith, g.whole)) in
    let fs' = (run fs).1 in
    rw (==-true size) (
      done,
      record {
        same_params = w.spares.same_params;
        same_pointers = w.spares.same_pointers;
        same_length = w.spares.same_length;
        reads =
            read_block-eq block spb fs' bytes (ap sectors_per_block w.spares.same_params)
              (rw w.spares.same_params g)
              (λ k lt.
                ap (λ m. read_absolute m fs') (omega arith) ∙ w.reads k (omega arith) (omega arith))
              (size ∙ ap CpmDiskParams.blocksize (sym w.spares.same_params));
        others = λ b lt ne.
            read_block-cong b spb fs fs' refl w.spares.same_params λ k lo.
              w.spares.outside (b * spb + k) (grind arith) (blocks-apart b block spb k ne lo);
      },
    )
