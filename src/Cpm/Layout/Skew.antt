-- ===== src/Cpm/Layout/Skew.antt =====
-- src/cpm-filesystem.ts: the skew tables are permutations of the 32 sectors of a track.
use bitsby.Prelude.{
  ℕ, zero, suc, ◌<◌, ◌≡◌, refl, Bool, true, false, some, List, [], ◌∷◌, ap, ◌∙◌, get_elem?, get_or,
  length, ltb, ◌==◌, if◌then◌else◌, arith, all_below, all_below_sound, ltb→lt, ==_iff,
}
use bitsby.Cpm.Layout.{sectors_per_track, build_boot_skew, build_data_skew, logical_to_physical}

-- The first position of a value.
abbrev index_of : ℕ → List ℕ → ℕ
index_of v [] = 0
index_of v (x ∷ xs) = if x == v then 0 else suc (index_of v xs)

get_elem?-some : (xs : List ℕ) (i : ℕ) → i < length xs → get_elem? xs i ≡ some (get_or xs i 0)
get_elem?-some [] i h = absurd (omega arith)
get_elem?-some (x ∷ xs) zero h = refl
get_elem?-some (x ∷ xs) (suc i) h = get_elem?-some xs i (omega arith)

get_elem?-lt : (xs : List ℕ) (i v : ℕ) → get_elem? xs i ≡ some v → i < length xs
get_elem?-lt [] i v h = absurd (ground arith)
get_elem?-lt (x ∷ xs) zero v h = omega arith
get_elem?-lt (x ∷ xs) (suc i) v h = omega (arith, get_elem?-lt xs i v h)

-- A table of 32 entries that runs through the 32 positions, each once.
record IsSkew (table : List ℕ) : Type 0 where
  size : length table ≡ 32
  range : (l : ℕ) → l < 32 → get_or table l 0 < 32
  back : (l : ℕ) → l < 32 → index_of (get_or table l 0) table ≡ l
  onto : (p : ℕ) → p < 32 → (get_or table (index_of p table) 0 ≡ p) × (index_of p table < 32)

-- The same by tests at every index.
IsSkew-of_tests :
    (table : List ℕ)
    → length table ≡ 32
    → all_below 32 (λ l. ltb (get_or table l 0) 32) ≡ true
    → all_below 32 (λ l. index_of (get_or table l 0) table == l) ≡ true
    → all_below 32 (λ p. get_or table (index_of p table) 0 == p) ≡ true
    → all_below 32 (λ p. ltb (index_of p table) 32) ≡ true
    → IsSkew table
IsSkew-of_tests table e range back onto within = record {
  size = e;
  range = λ l h. ltb→lt _ _ (all_below_sound 32 (λ l. ltb (get_or table l 0) 32) l range h);
  back = λ l h.
      (==_iff _ l).0 (all_below_sound 32 (λ l. index_of (get_or table l 0) table == l) l back h);
  onto = λ p h. (
    (==_iff _ p).0 (all_below_sound 32 (λ p. get_or table (index_of p table) 0 == p) p onto h),
    ltb→lt _ _ (all_below_sound 32 (λ p. ltb (index_of p table) 32) p within h),
  );
}

boot-IsSkew : IsSkew build_boot_skew
unfolding build_boot_skew
boot-IsSkew = IsSkew-of_tests _ refl refl refl refl refl

data-IsSkew : IsSkew build_data_skew
unfolding build_data_skew
data-IsSkew = IsSkew-of_tests _ refl refl refl refl refl

table_for : Bool → List ℕ
table_for boot = if boot then build_boot_skew else build_data_skew

table_for-IsSkew : (boot : Bool) → IsSkew (table_for boot)
unfolding table_for
table_for-IsSkew true = boot-IsSkew
table_for-IsSkew false = data-IsSkew

-- With the table shut.
logical_to_physical_lem :
    (track l system_tracks : ℕ)
    → logical_to_physical track l system_tracks ≡ get_elem? (table_for (ltb track system_tracks)) l
unfolding logical_to_physical table_for
logical_to_physical_lem track l system_tracks = refl

module _ (table : List ℕ) (s : IsSkew table) where
  table-injective : (l m p : ℕ) → get_elem? table l ≡ some p → get_elem? table m ≡ some p → l ≡ m
  table-injective l m p e f =
      let hl = get_elem?-lt table l p e in
      let hm = get_elem?-lt table m p f in
      cc (
        get_elem?-some table l hl,
        get_elem?-some table m hm,
        s.back l (omega (arith, s.size)),
        s.back m (omega (arith, s.size)),
      )

  table-lt : (l p : ℕ) → get_elem? table l ≡ some p → (l < 32) × (p < 32)
  table-lt l p e =
      let hl = get_elem?-lt table l p e in
      let l32 : l < 32 = omega (arith, s.size) in
      (l32, ground (arith, get_elem?-some table l hl, s.range l l32))

module _ (track system_tracks : ℕ) where
  -- A sector of the track has a physical position on it.
  pub logical_to_physical-defined :
      (l : ℕ)
      → l < sectors_per_track
      → (p : ℕ) × (logical_to_physical track l system_tracks ≡ some p) × (p < sectors_per_track)
  logical_to_physical-defined l h =
      let table = table_for (ltb track system_tracks) in
      let s = table_for-IsSkew (ltb track system_tracks) in
      (
        get_or table l 0,
        logical_to_physical_lem track l system_tracks
            ∙ get_elem?-some table l (omega (arith, s.size)),
        s.range l h,
      )

  -- Two sectors with one position are one sector.
  pub logical_to_physical-injective :
      (l m p : ℕ)
      → logical_to_physical track l system_tracks ≡ some p
      → logical_to_physical track m system_tracks ≡ some p
      → l ≡ m
  logical_to_physical-injective l m p e f =
      table-injective (table_for (ltb track system_tracks)) (table_for-IsSkew _) l m p
        (rw logical_to_physical_lem at e) (rw logical_to_physical_lem at f)

  -- Every position of the track is that of a sector.
  pub logical_to_physical-onto :
      (p : ℕ)
      → p < sectors_per_track
      → (l : ℕ) × (l < sectors_per_track) × (logical_to_physical track l system_tracks ≡ some p)
  logical_to_physical-onto p h =
      let table = table_for (ltb track system_tracks) in
      let s = table_for-IsSkew (ltb track system_tracks) in
      let (e, l) = s.onto p h in
      (
        index_of p table,
        l,
        logical_to_physical_lem track (index_of p table) system_tracks
            ∙ get_elem?-some table (index_of p table) (omega (arith, s.size))
            ∙ ap some e,
      )

  -- What has a position is a sector of the track, and so is the position.
  pub logical_to_physical-lt :
      (l p : ℕ)
      → logical_to_physical track l system_tracks ≡ some p
      → (l < sectors_per_track) × (p < sectors_per_track)
  logical_to_physical-lt l p e =
      table-lt (table_for (ltb track system_tracks)) (table_for-IsSkew _) l p
        (rw logical_to_physical_lem at e)

-- On every track, with either framing, each physical sector is the place of exactly one logical
-- sector of the 32.
pub logical_to_physical-bijective :
    (track system_tracks p : ℕ)
    → p < sectors_per_track
    → (l : ℕ) × (l < sectors_per_track)
      × (logical_to_physical track l system_tracks ≡ some p)
      × ((m : ℕ) → logical_to_physical track m system_tracks ≡ some p → m ≡ l)
logical_to_physical-bijective track system_tracks p h =
    let (l, lt, e) = logical_to_physical-onto track system_tracks p h in
    (l, lt, e, λ m f. logical_to_physical-injective track system_tracks m l p f e)
