-- ===== src/Xmodem/Blocks.antt =====
-- src/xmodem-sender.ts: the blocks of a file, joined.
use native.Mathlib.Decide.{dec_lt}
use bitsby.Prelude.{
  length-subarray, lt→ltb, le→ltb_false, get_or-append_left, get_or-append_right, ℕ, zero, suc, ◌+◌,
  ◌-◌, ◌*◌, ◌<◌, ◌≤◌, ◌≡◌, refl, ap, ◌∙◌, min, List, [], ◌++◌, if◌then◌else◌, length, replicate,
  subarray, arith, length-copy, length-append, length-replicate, get_or, list_ext, get_or-copy_in,
  get_or-copy_ne, get_or-subarray, inr, ltb,
}
use bitsby.Xmodem.Packet.{block_size, sub, total_blocks, data_block}

-- The blocks from an index on, one after another.
unfoldable pub blocks_from : List ℕ → ℕ → ℕ → List ℕ
blocks_from file zero i = []
blocks_from file (suc n) i = data_block file i ++ blocks_from file n (i + 1)

pub length-data_block : (file : List ℕ) (i : ℕ) → length (data_block file i) ≡ block_size
unfolding data_block
length-data_block file i =
    length-copy (subarray file (i * block_size) (min (i * block_size + block_size) (length file)))
      (replicate block_size sub) 0
    ∙ length-replicate block_size sub

length-blocks_from : (file : List ℕ) (n i : ℕ) → length (blocks_from file n i) ≡ n * block_size
unfolding blocks_from
length-blocks_from file zero i = refl
length-blocks_from file (suc n) i = omega (
  arith,
  length-append (data_block file i) (blocks_from file n (i + 1)),
  length-data_block file i,
  length-blocks_from file n (i + 1),
)

-- The byte of the padded file at an index.
abbrev padded : List ℕ → ℕ → ℕ
padded file j = if ltb j (length file) then get_or file j 0 else sub

get_or-replicate : (n k v : ℕ) → k < n → get_or (replicate n v) k 0 ≡ v
get_or-replicate zero k v h = absurd (omega arith)
get_or-replicate (suc n) zero v h = refl
get_or-replicate (suc n) (suc k) v h = get_or-replicate n k v (omega arith)

get_or-data_block :
    (file : List ℕ) (i k : ℕ)
    → k < block_size
    → get_or (data_block file i) k 0 ≡ padded file (i * block_size + k)
unfolding data_block
get_or-data_block file i k h =
    let start = i * block_size in
    let end = min (start + block_size) (length file) in
    let piece = subarray file start end in
    let size : length piece ≡ end - start = length-subarray file start end (omega arith) in
    let turn : k + start ≡ start + k = omega arith in
    elim (dec_lt (start + k) (length file)) [
      | yes inside ↦
          get_or-copy_in piece (replicate block_size sub) 0 k k 0 (omega arith) (omega arith)
            (omega (arith, size))
          ∙ get_or-subarray file start end k 0 (omega arith)
          ∙ ap (λ j. get_or file j 0) turn
          ∙ rw (lt→ltb (start + k) (length file) inside)
      | no beyond ↦
          get_or-copy_ne piece (replicate block_size sub) 0 k 0 (inr (omega (arith, size)))
          ∙ get_or-replicate block_size k sub h
          ∙ rw (le→ltb_false (start + k) (length file) (omega arith))
    ]

get_or-blocks_from :
    (file : List ℕ) (n i j : ℕ)
    → j < n * block_size
    → get_or (blocks_from file n i) j 0 ≡ padded file (i * block_size + j)
unfolding blocks_from
get_or-blocks_from file zero i j h = absurd (omega arith)
get_or-blocks_from file (suc n) i j h =
    let block = data_block file i in
    let size = length-data_block file i in
    let rest = blocks_from file n (i + 1) in
    elim (dec_lt j block_size) [
      | yes here ↦
          get_or-append_left block rest j 0 (omega (arith, size)) ∙ get_or-data_block file i j here
      | no later ↦
          get_or-append_right block rest j (j - block_size) 0 (omega (arith, size))
          ∙ get_or-blocks_from file n (i + 1) (j - block_size) (omega arith)
          ∙ ap (padded file) (omega arith)
    ]

padded-append :
    (file : List ℕ) (n j : ℕ)
    → j < length file + n
    → padded file j ≡ get_or (file ++ replicate n sub) j 0
padded-append file n j h = elim (dec_lt j (length file)) [
  | yes inside ↦
      rw (lt→ltb j (length file) inside, get_or-append_left file (replicate n sub) j 0 inside)
  | no beyond ↦
      let beyond_end : length file ≤ j = omega arith in
      rw (
        le→ltb_false j (length file) beyond_end,
        get_or-append_right file (replicate n sub) j (j - length file) 0 (omega arith),
        get_or-replicate n (j - length file) sub (omega arith),
      )
]

-- The blocks that are sent for a file, joined, are the file and SUB bytes up to the next multiple
-- of 128, fewer than 128 of them.
pub blocks_from-padded :
    (file : List ℕ)
    → let padding = total_blocks file * block_size - length file in
      (blocks_from file (total_blocks file) 0 ≡ file ++ replicate padding sub)
      × (padding < block_size)
      × (length file ≤ total_blocks file * block_size)
blocks_from-padded file =
    let total = total_blocks file in
    let pad = replicate (total * block_size - length file) sub in
    let size = length-blocks_from file total 0 in
    let pad_size : length pad ≡ total * block_size - length file =
      length-replicate (total * block_size - length file) sub in
    (
      list_ext (blocks_from file total 0) (file ++ pad)
          (size ∙ omega (arith, length-append file pad, pad_size))
          λ j h.
            let same : 0 * block_size + j ≡ j = omega arith in
            get_or-blocks_from file total 0 j (omega (arith, size))
            ∙ ap (padded file) same
            ∙ padded-append file (total * block_size - length file) j (omega (arith, size)),
      omega arith,
      omega arith,
    )
