-- ===== src/Replay/Normal.antt =====
-- src/replay-engine.ts: what `convertLineEndings` makes of a text.
use bitsby.Prelude.{
  ℕ, zero, suc, ◌≤◌, ◌≡◌, refl, ap, true, false, List, [], ◌∷◌, ◌++◌, ◌==◌, ltb, length, drop,
  subarray, arith, cons_head, length-nil, nil≢cons, drop-next, Bool-cases, length-drop, take_all,
  sym, inl, inr, ◌-◌, take,
}
use mathlib.Core.List.{append_assoc, append-nil}
use mathlib.Core.Bool.{false≢true}
use bitsby.Replay.Lines.{
  cr, lf, crlf, raw, target_bytes, starts_with_lf, convert_from, convert_line_endings,
}

-- The text read from left to right, with each line ending (CR LF, CR or LF) replaced.
abbrev pub normalize : List ℕ → List ℕ → List ℕ
normalize target [] = []
normalize target (b ∷ []) = elim (b == 0x0d) [
  | true ↦ target
  | false ↦ elim (b == 0x0a) [ true ↦ target | false ↦ b ∷ [] ]
]
normalize target (b ∷ c ∷ rest) = elim (b == 0x0d) [
  | true ↦ elim (c == 0x0a) [
    | true ↦ target ++ normalize target rest
    | false ↦ target ++ normalize target (c ∷ rest)
  ]
  | false ↦ elim (b == 0x0a) [
    | true ↦ target ++ normalize target (c ∷ rest)
    | false ↦ b ∷ normalize target (c ∷ rest)
  ]
]

module _ (target : List ℕ) (b : ℕ) where
  pub normalize-plain :
      (rest : List ℕ)
      → (b == 0x0d) ≡ false
      → (b == 0x0a) ≡ false
      → normalize target (b ∷ rest) ≡ b ∷ normalize target rest
  normalize-plain [] h k = rw (h, k, normalize) refl
  normalize-plain (c ∷ rest) h k = rw (h, k, normalize) refl

  pub normalize-lf :
      (rest : List ℕ)
      → (b == 0x0d) ≡ false
      → (b == 0x0a) ≡ true
      → normalize target (b ∷ rest) ≡ target ++ normalize target rest
  normalize-lf [] h k = rw (h, k, normalize, append-nil target)
  normalize-lf (c ∷ rest) h k = rw (h, k, normalize) refl

  pub normalize-cr :
      (rest : List ℕ)
      → (b == 0x0d) ≡ true
      → starts_with_lf rest ≡ false
      → normalize target (b ∷ rest) ≡ target ++ normalize target rest
  normalize-cr [] h k = rw (h, normalize, append-nil target)
  normalize-cr (c ∷ rest) h k = rw (h, k, normalize) refl

  pub normalize-crlf :
      (rest : List ℕ)
      → (b == 0x0d) ≡ true
      → starts_with_lf rest ≡ true
      → normalize target (b ∷ rest) ≡ target ++ normalize target (drop 1 rest)
  normalize-crlf [] h k = absurd (false≢true k)
  normalize-crlf (c ∷ rest) h k = rw (h, k, normalize) refl

take-next :
    (xs : List ℕ) (n b : ℕ) (rest : List ℕ)
    → drop n xs ≡ (b ∷ rest)
    → take (suc n) xs ≡ take n xs ++ (b ∷ [])
take-next [] zero b rest h = absurd (nil≢cons h)
take-next [] (suc n) b rest h = absurd (nil≢cons h)
take-next (x ∷ xs) zero b rest h = ap (λ y. y ∷ []) (cons_head h)
take-next (x ∷ xs) (suc n) b rest h = ap (λ r. x ∷ r) (take-next xs n b rest h)

-- A segment that grows by one byte.
subarray-next :
    (buffer : List ℕ) (last i b : ℕ) (rest : List ℕ)
    → drop i buffer ≡ (b ∷ rest)
    → last ≤ i
    → subarray buffer last (suc i) ≡ subarray buffer last i ++ (b ∷ [])
subarray-next [] last zero b rest h le = absurd (nil≢cons h)
subarray-next [] last (suc i) b rest h le = absurd (nil≢cons h)
subarray-next (x ∷ buffer) zero i b rest h le =
    let n : suc i - 0 ≡ suc i = omega arith in
    let m : i - 0 ≡ i = omega arith in rw (n, m) (take-next (x ∷ buffer) i b rest h)
subarray-next (x ∷ buffer) (suc last) zero b rest h le = absurd (omega arith)
subarray-next (x ∷ buffer) (suc last) (suc i) b rest h le =
    let n : suc (suc i) - suc last ≡ suc i - last = omega arith in
    let m : suc i - suc last ≡ i - last = omega arith in
    rw (n, m) (subarray-next buffer last i b rest h (omega arith))

subarray_self : (buffer : List ℕ) (i : ℕ) → subarray buffer i i ≡ []
subarray_self buffer i = let e : i - i ≡ 0 = omega arith in rw e refl

-- The loop from index `i` on: the bytes pushed are the segment that is open and the rest, with
-- its line endings replaced; after a CR of a pair, the LF is left out.
module _ (buffer target : List ℕ) where
  convert_end :
      (i last : ℕ)
      → drop i buffer ≡ []
      → last ≤ i
      → convert_from buffer target [] false i last ≡ subarray buffer last i ++ []
  convert_end i last at le =
      let none_left : 0 ≡ length (drop i buffer) = sym (ap length at) in
      let whole : subarray buffer last i ≡ drop last buffer =
        take_all (i - last) (drop last buffer)
          (omega (arith, none_left, length-drop i buffer, length-drop last buffer)) in
      elim (Bool-cases (ltb last (length buffer))) [
        | inl h ↦ rw (h, append-nil (subarray buffer last i)) (sym whole)
        | inr h ↦
            rw (h, append-nil (subarray buffer last i), whole)
              (sym (length-nil (drop last buffer) (ground (arith, length-drop last buffer))))
      ]

  mutual
    convert_from-normalize :
        (rest : List ℕ) (i last : ℕ)
        → drop i buffer ≡ rest
        → last ≤ i
        → convert_from buffer target rest false i last
          ≡ subarray buffer last i ++ normalize target rest
    convert_from-normalize [] i last at le = convert_end i last at le
    convert_from-normalize (b ∷ rest) i last at le =
        let ahead : drop (suc i) buffer ≡ rest = drop-next buffer i at in
        elim (Bool-cases (b == 0x0d)) [
          | inl h ↦ elim (Bool-cases (starts_with_lf rest)) [
            | inl k ↦
                rw
                  (
                    convert_from,
                    h,
                    k,
                    normalize-crlf target b rest h k,
                    convert_skip-normalize rest (suc i) ahead k,
                  )
                  refl
            | inr k ↦
                rw
                  (
                    convert_from,
                    h,
                    k,
                    normalize-cr target b rest h k,
                    convert_from-normalize rest (suc i) (suc i) ahead (omega arith),
                    subarray_self buffer (suc i),
                  )
                  refl
          ]
          | inr h ↦ elim (Bool-cases (b == 0x0a)) [
            | inl k ↦
                rw
                  (
                    convert_from,
                    h,
                    k,
                    normalize-lf target b rest h k,
                    convert_from-normalize rest (suc i) (suc i) ahead (omega arith),
                    subarray_self buffer (suc i),
                  )
                  refl
            | inr k ↦
                rw
                  (
                    convert_from,
                    h,
                    k,
                    normalize-plain target b rest h k,
                    convert_from-normalize rest (suc i) last ahead (omega arith),
                    subarray-next buffer last i b rest at le,
                  )
                  (append_assoc (subarray buffer last i) (b ∷ []) (normalize target rest))
          ]
        ]

    convert_skip-normalize :
        (rest : List ℕ) (i : ℕ)
        → drop i buffer ≡ rest
        → starts_with_lf rest ≡ true
        → convert_from buffer target rest true i (suc i) ≡ normalize target (drop 1 rest)
    convert_skip-normalize [] i at k = absurd (false≢true k)
    convert_skip-normalize (c ∷ rest) i at k =
        rw
          (
            convert_from-normalize rest (suc i) (suc i) (drop-next buffer i at) (omega arith),
            subarray_self buffer (suc i),
          )
          refl

-- convertLineEndings gives the text with each CR LF, each other CR and each other LF replaced by
-- the target, and for `raw` the text itself.
pub convert_line_endings-normalize :
    (text : List ℕ)
    → (convert_line_endings cr text ≡ normalize (target_bytes cr) text)
      × (convert_line_endings lf text ≡ normalize (target_bytes lf) text)
      × (convert_line_endings crlf text ≡ normalize (target_bytes crlf) text)
      × (convert_line_endings raw text ≡ text)
unfolding convert_line_endings
convert_line_endings-normalize text = (
  convert_from-normalize text (target_bytes cr) text 0 0 refl (omega arith),
  convert_from-normalize text (target_bytes lf) text 0 0 refl (omega arith),
  convert_from-normalize text (target_bytes crlf) text 0 0 refl (omega arith),
  refl,
)
