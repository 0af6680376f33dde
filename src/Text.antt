-- ===== src/Text.antt =====
-- What src/cpm-filesystem.ts and src/protocol.ts use of the strings of JavaScript. A string is the
-- list of its character codes.
use bitsby.Prelude.{
  ℕ, zero, suc, ◌+◌, ◌/◌, ◌%◌, ltb, ◌-◌, Bool, true, false, ◌&&◌, ◌||◌, List, [], ◌∷◌, ◌++◌, leb,
  ◌==◌, length, replicate, if◌then◌else◌, All, ◌≡◌, refl,
}

abbrev pub space : ℕ
space = 32

-- s.padEnd(n, ' ')
abbrev pub pad_end : List ℕ → ℕ → List ℕ
pad_end s n = s ++ replicate (n - length s) space

-- The white space and line terminators that `trimEnd` removes.
unfoldable pub is_white : ℕ → Bool
is_white c =
    (leb 9 c && leb c 13)
    || c == 32
    || c == 160
    || c == 0x1680
    || (leb 0x2000 c && leb c 0x200a)
    || c == 0x2028
    || c == 0x2029
    || c == 0x202f
    || c == 0x205f
    || c == 0x3000
    || c == 0xfeff

-- s.trimEnd()
trim_cons : ℕ → List ℕ → List ℕ
trim_cons c [] = if is_white c then [] else c ∷ []
trim_cons c (d ∷ rest) = c ∷ d ∷ rest

unfoldable pub trim_end : List ℕ → List ℕ
unfolding trim_cons is_white
trim_end [] = []
trim_end (c ∷ s) = trim_cons c (trim_end s)

-- s.trimStart()
unfoldable pub trim_start : List ℕ → List ℕ
unfolding is_white
trim_start [] = []
trim_start (c ∷ s) = elim (is_white c) [ true ↦ trim_start s | false ↦ c ∷ s ]

-- A text without white space is not trimmed.
abbrev pub Solid : List ℕ → Type 0
Solid = All (λ c. is_white c ≡ false)

pub trim_end-Solid : (s : List ℕ) → Solid s → trim_end s ≡ s
unfolding trim_end trim_cons
trim_end-Solid [] h = refl
trim_end-Solid (c ∷ []) h = rw h.0 refl
trim_end-Solid (c ∷ d ∷ s) h = rw (trim_end-Solid (d ∷ s) h.1) refl

pub trim_start-Solid : (s : List ℕ) → Solid s → trim_start s ≡ s
unfolding trim_start
trim_start-Solid [] h = refl
trim_start-Solid (c ∷ s) h = rw (h.0, trim_start) refl

-- `${n}`: the decimal digits of a number. A number has at most `n + 1` of them.
abbrev digits_from : ℕ → ℕ → List ℕ → List ℕ
digits_from zero n digits = digits
digits_from (suc fuel) n digits = elim (ltb n 10) [
  | true ↦ (48 + n) ∷ digits
  | false ↦ digits_from fuel (n / 10) ((48 + n % 10) ∷ digits)
]

unfoldable pub number_text : ℕ → List ℕ
number_text n = digits_from (n + 1) n []
