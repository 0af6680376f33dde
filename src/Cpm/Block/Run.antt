-- ===== src/Cpm/Block/Run.antt =====
-- src/cpm-filesystem.ts: the sector writes of `writeBlock`.
use native.Mathlib.Decide.{ℕ_discrete}
use bitsby.Prelude.{
  ℕ, zero, suc, ◌+◌, ◌*◌, ◌/◌, ◌%◌, ◌<◌, ◌≤◌, ◌≡◌, refl, ap, ◌∙◌, ◌⊎◌, inl, inr, ◌≢◌, List, arith,
  length, subarray, length-subarray,
}
use bitsby.Cpm.Layout.{CpmDiskParams, data_size, sectors_per_track}
use bitsby.Cpm.Exec.{CpmFilesystem, Result, ok, seq-ok}
use bitsby.Cpm.Sector.{read_sector, write_sector}
use bitsby.Cpm.Sector.ReadWrite.{HasTrack, write_sector-Written}
use bitsby.Cpm.Block.{sectors_per_block, track_of, log_sec_of, write_block_from}

-- Sectors of 128 bytes, 32 to a track, and blocks of whole sectors, as in the three presets.
pub record IsGeometry (p : CpmDiskParams) : Type 0 where
  pub sector : p.seclen ≡ data_size
  pub per_track : p.sectrk ≡ sectors_per_track
  pub whole : p.blocksize ≡ sectors_per_block p * data_size

-- The image holds the data sectors below a bound.
abbrev pub HasSectors : CpmFilesystem → ℕ → Type 0
HasSectors fs n = (a : ℕ) → a < n → HasTrack fs (track_of fs.params a)

-- A data sector by its number from the first data track.
abbrev pub read_absolute : ℕ → CpmFilesystem → Result (List ℕ)
read_absolute a fs = read_sector (track_of fs.params a) (log_sec_of fs.params a) fs

-- What a run of sector writes, to the numbers from `lo` below `hi`, may have changed.
pub record Spares (lo hi n : ℕ) (fs fs' : CpmFilesystem) : Type 0 where
  pub same_params : fs'.params ≡ fs.params
  pub same_pointers : fs'.use_large_pointers ≡ fs.use_large_pointers
  pub same_length : length fs'.image_data ≡ length fs.image_data
  pub outside : (a : ℕ) → a < n → (a < lo) ⊎ (hi ≤ a) → read_absolute a fs' ≡ read_absolute a fs

-- Two numbers on one track and one sector are one number.
absolute-injective :
    (p : CpmDiskParams) (a b : ℕ)
    → IsGeometry p
    → a ≢ b
    → (track_of p a ≢ track_of p b) ⊎ (log_sec_of p a ≢ log_sec_of p b)
absolute-injective p a b g ne = elim (ℕ_discrete (log_sec_of p a) (log_sec_of p b)) [
  | yes e ↦ inl (λ t. ne (same p.boottrk p.sectrk a b g.per_track t e))
  | no n ↦ inr n
]
  where
    same :
        (boot per a b : ℕ) → per ≡ 32 → boot + a / per ≡ boot + b / per → a % per ≡ b % per → a ≡ b
    same boot per a b h t e = omega (arith, rw h at t, rw h at e)

-- One data sector is written.
record WroteAbsolute (a n : ℕ) (bytes : List ℕ) (fs fs' : CpmFilesystem) : Type 0 where
  spares : Spares a (a + 1) n fs fs'
  reads : read_absolute a fs' ≡ ok bytes

log_sec_of-lt : (p : CpmDiskParams) (a : ℕ) → IsGeometry p → log_sec_of p a < sectors_per_track
log_sec_of-lt p a g = rw g.per_track (omega arith)

write_absolute :
    (a n : ℕ) (bytes : List ℕ) (fs : CpmFilesystem)
    → IsGeometry fs.params
    → HasSectors fs n
    → a < n
    → length bytes ≡ data_size
    → let r = write_sector (track_of fs.params a) (log_sec_of fs.params a) bytes fs in
      (r.0 ≡ ok tt) × WroteAbsolute a n bytes fs r.1
write_absolute a n bytes fs g has h size =
    let (done, w) =
      write_sector-Written (track_of fs.params a) (log_sec_of fs.params a) bytes fs
        (log_sec_of-lt fs.params a g) (has a h) size in
    (
      done,
      record {
        spares = record {
          same_params = w.same_params;
          same_pointers = w.same_pointers;
          same_length = w.same_length;
          outside = λ b lt out. rw w.same_params (
              w.others (track_of fs.params b) (log_sec_of fs.params b) (log_sec_of-lt fs.params b g)
                (absolute-injective fs.params b a g (omega arith)) (has b lt));
        };
        reads = rw w.same_params w.reads;
      },
    )

Spares-refl : (lo hi n : ℕ) (fs : CpmFilesystem) → Spares lo hi n fs fs
Spares-refl lo hi n fs = record {
  same_params = refl;
  same_pointers = refl;
  same_length = refl;
  outside = λ a lt out. refl;
}

-- What two steps spare.
Spares-trans :
    {lo hi lo' hi' lo'' hi'' n : ℕ} {fs fs' fs'' : CpmFilesystem}
    → lo'' ≤ lo
    → lo'' ≤ lo'
    → hi ≤ hi''
    → hi' ≤ hi''
    → Spares lo hi n fs fs'
    → Spares lo' hi' n fs' fs''
    → Spares lo'' hi'' n fs fs''
Spares-trans l l' u u' s t = record {
  same_params = t.same_params ∙ s.same_params;
  same_pointers = t.same_pointers ∙ s.same_pointers;
  same_length = t.same_length ∙ s.same_length;
  outside = λ a lt out. t.outside a lt (omega arith) ∙ s.outside a lt (omega arith);
}

HasSectors-Spares :
    {lo hi n : ℕ} {fs fs' : CpmFilesystem}
    → Spares lo hi n fs fs'
    → HasSectors fs n
    → HasSectors fs' n
HasSectors-Spares s has a lt = rw (s.same_params, s.same_length) (has a lt)

-- The state after some rounds of the write loop, from sector `a + i` up to `a + i + rounds`.
pub record WroteRun (rounds i a n : ℕ) (bytes : List ℕ) (fs fs' : CpmFilesystem) : Type 0 where
  pub spares : Spares (a + i) (a + i + rounds) n fs fs'
  pub reads :
      (k : ℕ)
      → i ≤ k
      → k < i + rounds
      → read_absolute (a + k) fs' ≡ ok (subarray bytes (k * data_size) ((k + 1) * data_size))

pub write_block_from-WroteRun :
    (rounds i a n : ℕ) (bytes : List ℕ) (fs : CpmFilesystem)
    → IsGeometry fs.params
    → HasSectors fs n
    → a + i + rounds ≤ n
    → (i + rounds) * data_size ≤ length bytes
    → let r = write_block_from rounds i a bytes fs in
      (r.0 ≡ ok tt) × WroteRun rounds i a n bytes fs r.1
unfolding write_block_from
write_block_from-WroteRun zero i a n bytes fs g has h size =
    (refl, record { spares = Spares-refl _ _ n fs; reads = λ k lo hi. absurd (omega arith) })
write_block_from-WroteRun (suc rounds) i a n bytes fs g has h size =
    let piece = subarray bytes (i * fs.params.seclen) ((i + 1) * fs.params.seclen) in
    let piece_size : length piece ≡ data_size =
      rw g.sector (
        omega (arith, length-subarray bytes (i * data_size) ((i + 1) * data_size) (omega arith))) in
    let (done, w) = write_absolute (a + i) n piece fs g has (omega arith) piece_size in
    let step = write_sector (track_of fs.params (a + i)) (log_sec_of fs.params (a + i)) piece in
    let fs₁ = (step fs).1 in
    let (done', r) =
      write_block_from-WroteRun rounds (i + 1) a n bytes fs₁ (rw w.spares.same_params g)
        (HasSectors-Spares w.spares has) (omega arith) (omega arith) in
    rw (seq-ok step (write_block_from rounds (i + 1) a bytes) fs done) (
      done',
      record {
        spares =
            Spares-trans (omega arith) (omega arith) (omega arith) (omega arith) w.spares r.spares;
        reads = λ k lo hi. elim (ℕ_discrete i k) [
          | yes e ↦ rw (← e) (
              r.spares.outside (a + i) (omega arith) (inl (omega arith))
              ∙ w.reads
              ∙ ap ok (simp g.sector))
          | no ne ↦ r.reads k (omega arith) (omega arith)
        ];
      },
    )
