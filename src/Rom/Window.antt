-- ===== src/Rom/Window.antt =====
-- src/services/rom-image.ts: what `burnImage` puts where, and when it refuses.
use bitsby.Prelude.{
  ℕ, zero, suc, ◌+◌, ◌-◌, ◌≤◌, ◌<◌, ◌≡◌, refl, ap, ◌∙◌, inl, inr, Bool, true, false, not, ◌&&◌,
  ◌||◌, none, List, [], ◌∷◌, ◌==◌, ltb, leb, length, get_or, replicate, length-replicate,
  length-copy, get_or-copy_ne, get_or-copy_in, Bool-cases, arith, if◌then◌else◌,
}
use bitsby.Rom.Hex.{Result, done, failed, Chunk, and_then}
use bitsby.Rom.Burn.{
  ImageFormat, Addressing, BurnRegion, BurnResult, all_empty, min_addr, Burned, place, burn_from,
  anchor_of, result_of, chunks_in, burn_image,
}

-- A chunk without bytes fits everywhere; another fits when it lies in the window.
abbrev pub fits : ℕ → ℕ → Chunk → Bool
fits anchor size c =
    length c.bytes == 0 || (leb anchor c.addr && leb (c.addr - anchor + length c.bytes) size)

abbrev pub all_fit : ℕ → ℕ → List Chunk → Bool
all_fit anchor size [] = true
all_fit anchor size (c ∷ chunks) = fits anchor size c && all_fit anchor size chunks

-- The byte at an offset of the window: that of the last chunk that covers it.
abbrev pub covers : ℕ → Chunk → ℕ → Bool
covers anchor c i = leb (c.addr - anchor) i && ltb i (c.addr - anchor + length c.bytes)

abbrev pub byte_at : ℕ → List Chunk → ℕ → ℕ → ℕ
byte_at anchor [] i default = default
byte_at anchor (c ∷ chunks) i default =
    byte_at anchor chunks i
      (if covers anchor c i then get_or c.bytes (i - (c.addr - anchor)) 0 else default)

abbrev pub total_length : List Chunk → ℕ
total_length [] = 0
total_length (c ∷ chunks) = length c.bytes + total_length chunks

-- What the loop makes of a window: all fits and each byte is as the chunks say, or something
-- does not fit.
abbrev Burns : ℕ → ℕ → List Chunk → Burned → Result Burned → Type 0
Burns anchor size chunks st (failed e) = all_fit anchor size chunks ≡ false
Burns anchor size chunks st (done st') =
    (all_fit anchor size chunks ≡ true)
    × (length st'.image ≡ size)
    × (st'.bytes_written ≡ st.bytes_written + total_length chunks)
    × ((i : ℕ) → i < size → get_or st'.image i 0 ≡ byte_at anchor chunks i (get_or st.image i 0))

place-covers :
    (anchor size : ℕ) (c : Chunk) (st : Burned) (i : ℕ)
    → length st.image ≡ size
    → i < size
    → c.addr - anchor + length c.bytes ≤ size
    → get_or (place (c.addr - anchor) c.bytes st).image i 0 ≡ (
        if covers anchor c i then get_or c.bytes (i - (c.addr - anchor)) 0 else get_or st.image i 0)
place-covers anchor size c st i l lt room = elim (Bool-cases (covers anchor c i)) [
  | inl h ↦ rw h (
      get_or-copy_in c.bytes st.image (c.addr - anchor) (i - (c.addr - anchor)) i 0 (ground arith)
        (ground arith) (omega (arith, l)))
  | inr h ↦ rw h (get_or-copy_ne c.bytes st.image (c.addr - anchor) i 0 (ground arith))
]

empty-covers :
    (anchor : ℕ) (c : Chunk) (i : ℕ) → (length c.bytes == 0) ≡ true → covers anchor c i ≡ false
empty-covers anchor c i h = ground arith

fits-window :
    (anchor size : ℕ) (c : Chunk)
    → (ltb c.addr anchor || ltb size (c.addr - anchor + length c.bytes)) ≡ false
    → fits anchor size c ≡ true
fits-window anchor size c k = ground arith

misfit-fits :
    (anchor size : ℕ) (c : Chunk)
    → (length c.bytes == 0) ≡ false
    → (ltb c.addr anchor || ltb size (c.addr - anchor + length c.bytes)) ≡ true
    → fits anchor size c ≡ false
misfit-fits anchor size c h k = ground arith

-- A chunk without bytes changes nothing.
skipped :
    (anchor size : ℕ) (c : Chunk) (chunks : List Chunk) (st : Burned) (r : Result Burned)
    → (length c.bytes == 0) ≡ true
    → Burns anchor size chunks st r
    → Burns anchor size (c ∷ chunks) st r
skipped anchor size c chunks st (failed e) h b = rw h b
skipped anchor size c chunks st (done st') h b =
    (rw h b.0, b.1, ground (arith, b.2), λ i lt. rw (empty-covers anchor c i h) (b.3 i lt))

-- A chunk that fits is placed.
placed :
    (anchor size : ℕ) (c : Chunk) (chunks : List Chunk) (st : Burned) (r : Result Burned)
    → length st.image ≡ size
    → fits anchor size c ≡ true
    → c.addr - anchor + length c.bytes ≤ size
    → Burns anchor size chunks (place (c.addr - anchor) c.bytes st) r
    → Burns anchor size (c ∷ chunks) st r
placed anchor size c chunks st (failed e) l f room b = rw (fits, f) b
placed anchor size c chunks st (done st') l f room b = (
  rw (fits, f) b.0,
  b.1,
  omega (arith, b.2),
  λ i lt. b.3 i lt ∙ ap (byte_at anchor chunks i) (place-covers anchor size c st i l lt room),
)

module _ (addressing : Addressing) (anchor size : ℕ) where
  burn_from-Burns :
      (chunks : List Chunk) (st : Burned)
      → length st.image ≡ size
      → Burns anchor size chunks st (burn_from addressing anchor size chunks st)
  burn_from-Burns [] st l = (refl, l, omega arith, λ i lt. refl)
  burn_from-Burns (c ∷ chunks) st l = elim (Bool-cases (length c.bytes == 0)) [
    | inl h ↦
        rw (burn_from, h)
          (skipped anchor size c chunks st (burn_from addressing anchor size chunks st) h
            (burn_from-Burns chunks st l))
    | inr h ↦ elim (Bool-cases (ltb c.addr anchor || ltb size (c.addr - anchor + length c.bytes))) [
      | inl k ↦
          rw (burn_from, h, k)
            (ap (λ t. t && all_fit anchor size chunks) (misfit-fits anchor size c h k))
      | inr k ↦
          rw (burn_from, h, k)
            (placed anchor size c chunks st
              (burn_from addressing anchor size chunks (place (c.addr - anchor) c.bytes st)) l
              (fits-window anchor size c k) (ground arith)
              (burn_from-Burns chunks (place (c.addr - anchor) c.bytes st)
                (length-copy c.bytes st.image (c.addr - anchor) ∙ l)))
    ]
  ]

-- What `burnImage` makes of the chunks of a file: an image of the window's size whose bytes are as
-- the chunks say and 0 elsewhere, or an error.
abbrev pub Burnt : Addressing → BurnRegion → List Chunk → Result BurnResult → Type 0
Burnt addressing region chunks (failed e) =
    (all_empty chunks
      || not (all_fit (anchor_of addressing region (min_addr none chunks)) region.size chunks))
    ≡ true
Burnt addressing region chunks (done r) =
    (all_empty chunks ≡ false)
    × (all_fit (anchor_of addressing region (min_addr none chunks)) region.size chunks ≡ true)
    × (length r.image ≡ region.size)
    × (r.bytes_written ≡ total_length chunks)
    × ((i : ℕ)
        → i < region.size
        → get_or r.image i 0
          ≡ byte_at (anchor_of addressing region (min_addr none chunks)) chunks i 0)

get_or-replicate : (n i d : ℕ) → get_or (replicate n d) i d ≡ d
get_or-replicate zero i d = refl
get_or-replicate (suc n) zero d = refl
get_or-replicate (suc n) (suc i) d = get_or-replicate n i d

abbrev blank : ℕ → Burned
blank size = record { image = replicate size 0; bytes_written = 0; low_off = none; high_end = 0 }

finished :
    (format : ImageFormat) (addressing : Addressing) (region : BurnRegion) (chunks : List Chunk)
    (r : Result Burned)
    → all_empty chunks ≡ false
    → Burns
        (anchor_of addressing region (min_addr none chunks))
        region.size
        chunks
        (blank region.size)
        r
    → Burnt addressing region chunks (and_then r (result_of format addressing region))
finished format addressing region chunks (failed e) some_bytes b = rw (some_bytes, b) refl
finished format addressing region chunks (done st) some_bytes b = (
  some_bytes,
  b.0,
  b.1,
  omega (arith, b.2),
  λ i lt.
      b.3 i lt
      ∙ ap (byte_at (anchor_of addressing region (min_addr none chunks)) chunks i)
          (get_or-replicate region.size i 0),
)

-- For a window of a positive size and a file whose chunks are read, `burnImage` fails exactly when
-- no chunk has a byte or some chunk does not lie in the window, counted from the region's base or,
-- relocated, from the lowest address; otherwise the image has exactly the size of the window, each
-- of its bytes is that of the last chunk that covers it, or 0, and `bytesWritten` counts the
-- bytes of the chunks.
pub burn_image-Burnt :
    (bytes : List ℕ) (format : ImageFormat) (addressing : Addressing) (region : BurnRegion)
    (chunks : List Chunk)
    → 0 < region.size
    → chunks_in format region bytes ≡ done chunks
    → Burnt addressing region chunks (burn_image bytes format addressing region)
unfolding burn_image
burn_image-Burnt bytes format addressing region chunks positive read =
    let nonzero : (region.size == 0) ≡ false = ground arith in
    elim (Bool-cases (all_empty chunks)) [
      | inl h ↦
          rw (nonzero, read, h)
            (ap
              (λ t.
                t
                || not (
                    all_fit (anchor_of addressing region (min_addr none chunks)) region.size
                      chunks))
              h)
      | inr h ↦
          rw (nonzero, read, h)
            (finished format addressing region chunks
              (burn_from addressing (anchor_of addressing region (min_addr none chunks)) region.size
                chunks (blank region.size))
              h
              (burn_from-Burns addressing (anchor_of addressing region (min_addr none chunks))
                region.size chunks (blank region.size) (length-replicate region.size 0)))
    ]
