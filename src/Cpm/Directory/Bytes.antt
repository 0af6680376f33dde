-- ===== src/Cpm/Directory/Bytes.antt =====
-- src/cpm-filesystem.ts: the byte loops of `parseDirEntry` and `serializeDirEntry`, index by index.
use bitsby.Prelude.{
  ℕ, zero, suc, ◌+◌, ◌%◌, ◌<◌, ◌≤◌, ◌≡◌, refl, ap, ◌∙◌, sym, List, [], ◌∷◌, length, get_or, All,
  arith, IsBytes, list_ext, get_or-set_self, get_or-set_ne, length-set, set, ◌⊎◌, map, ◌-◌,
}
use mathlib.Core.List.{append-nil}
use bitsby.Text.{pad_end}
use bitsby.Cpm.Directory.{bytes_at, write_run}

pub length-bytes_at : (buf : List ℕ) (off i n : ℕ) → length (bytes_at buf off i n) ≡ n
length-bytes_at buf off i zero = refl
length-bytes_at buf off i (suc n) = ap suc (length-bytes_at buf off (i + 1) n)

pub get_or-bytes_at :
    (buf : List ℕ) (off i n k : ℕ)
    → k < n
    → get_or (bytes_at buf off i n) k 0 ≡ get_or buf (off + (i + k)) 0
get_or-bytes_at buf off i zero k h = absurd (omega arith)
get_or-bytes_at buf off i (suc n) zero h = ap (λ j. get_or buf j 0) (omega arith)
get_or-bytes_at buf off i (suc n) (suc k) h =
    get_or-bytes_at buf off (i + 1) n k (omega arith) ∙ ap (λ j. get_or buf j 0) (omega arith)

-- A list is its own bytes.
pub bytes_at_self : (s : List ℕ) (n : ℕ) → length s ≡ n → bytes_at s 0 0 n ≡ s
bytes_at_self s n e = list_ext (bytes_at s 0 0 n) s (length-bytes_at s 0 0 n ∙ sym e) λ i lt.
    get_or-bytes_at s 0 0 n i (omega (arith, length-bytes_at s 0 0 n))
    ∙ ap (λ j. get_or s j 0) (omega arith)

pub length-write_run : (vs buf : List ℕ) (pos : ℕ) → length (write_run pos vs buf) ≡ length buf
length-write_run [] buf pos = refl
length-write_run (v ∷ vs) buf pos =
    length-write_run vs (set buf pos (v % 256)) (pos + 1) ∙ length-set buf pos (v % 256)

-- A run of writes leaves the bytes before and behind it.
pub get_or-write_run_ne :
    (vs buf : List ℕ) (pos i : ℕ)
    → (i < pos) ⊎ (pos + length vs ≤ i)
    → get_or (write_run pos vs buf) i 0 ≡ get_or buf i 0
get_or-write_run_ne [] buf pos i h = refl
get_or-write_run_ne (v ∷ vs) buf pos i h =
    get_or-write_run_ne vs (set buf pos (v % 256)) (pos + 1) i (omega arith)
    ∙ get_or-set_ne buf pos i (v % 256) 0 (omega arith)

pub get_or-write_run :
    (vs buf : List ℕ) (pos k : ℕ)
    → k < length vs
    → pos + length vs ≤ length buf
    → get_or (write_run pos vs buf) (pos + k) 0 ≡ get_or vs k 0 % 256
get_or-write_run [] buf pos k h fits = absurd (omega arith)
get_or-write_run (v ∷ vs) buf pos zero h fits =
    ap (λ j. get_or (write_run (pos + 1) vs (set buf pos (v % 256))) j 0) (omega arith)
    ∙ get_or-write_run_ne vs (set buf pos (v % 256)) (pos + 1) pos (omega arith)
    ∙ get_or-set_self buf pos (v % 256) 0 (omega arith)
get_or-write_run (v ∷ vs) buf pos (suc k) h fits =
    ap (λ j. get_or (write_run (pos + 1) vs (set buf pos (v % 256))) j 0) (omega arith)
    ∙ get_or-write_run vs (set buf pos (v % 256)) (pos + 1) k (omega arith)
        (omega (arith, length-set buf pos (v % 256)))

-- What a buffer keeps of the values written to it.
unfoldable pub low_bytes : List ℕ → List ℕ
low_bytes = map (λ b. b % 256)

pub get_or-low_bytes : (vs : List ℕ) (k : ℕ) → get_or (low_bytes vs) k 0 ≡ get_or vs k 0 % 256
unfolding low_bytes
get_or-low_bytes [] k = refl
get_or-low_bytes (v ∷ vs) zero = refl
get_or-low_bytes (v ∷ vs) (suc k) = get_or-low_bytes vs k

pub pad_end-long : (s : List ℕ) (n : ℕ) → n ≤ length s → pad_end s n ≡ s
pad_end-long s n h = let e : n - length s ≡ 0 = omega arith in rw e (append-nil s)

-- A list read back through a function that keeps its elements.
pub map-bytes_at :
    (P : ℕ → Type 0) (f : ℕ → ℕ)
    → ((c : ℕ) → P c → f c ≡ c)
    → (s : List ℕ) (n : ℕ) → length s ≡ n
    → All P s
    → map f (bytes_at s 0 0 n) ≡ s
map-bytes_at P f keep s n e h = rw (bytes_at_self s n e) (map-keep s h)
  where
    map-keep : (s : List ℕ) → All P s → map f s ≡ s
    map-keep = elim [ [] ↦ λ h. refl | c ∷ (s → ih) ↦ λ h. cc (keep c h.0, ih h.1) ]

pub get_or-IsByte : (buf : List ℕ) → IsBytes buf → (i : ℕ) → get_or buf i 0 < 256
get_or-IsByte [] h i = omega arith
get_or-IsByte (b ∷ buf) h zero = h.0
get_or-IsByte (b ∷ buf) h (suc i) = get_or-IsByte buf h.1 i
