-- ===== src/Replay/Twice.antt =====
-- src/replay-engine.ts: converting a text that `convertLineEndings` has already converted.
use bitsby.Prelude.{
  ℕ, ◌≡◌, refl, sym, drop, ◌∙◌, true, false, List, [], ◌∷◌, ◌++◌, ◌==◌, Bool-cases, inl, inr, arith,
}
use bitsby.Replay.Lines.{LineEnding, cr, lf, crlf, raw, starts_with_lf, convert_line_endings}
use bitsby.Replay.Normal.{
  normalize, normalize-plain, normalize-lf, normalize-cr, normalize-crlf,
  convert_line_endings-normalize,
}

-- A CR is not an LF.
cr-not_lf : (b : ℕ) → (b == 0x0d) ≡ true → (b == 0x0a) ≡ false
cr-not_lf b h = ground arith

-- A text converted to CR has no LF.
normalize_cr-starts : (text : List ℕ) → starts_with_lf (normalize (0x0d ∷ []) text) ≡ false
normalize_cr-starts [] = refl
normalize_cr-starts (b ∷ rest) = elim (Bool-cases (b == 0x0d)) [
  | inl h ↦ elim (Bool-cases (starts_with_lf rest)) [
    | inl k ↦ rw (normalize-crlf (0x0d ∷ []) b rest h k) refl
    | inr k ↦ rw (normalize-cr (0x0d ∷ []) b rest h k) refl
  ]
  | inr h ↦ elim (Bool-cases (b == 0x0a)) [
    | inl k ↦ rw (normalize-lf (0x0d ∷ []) b rest h k) refl
    | inr k ↦ rw (normalize-plain (0x0d ∷ []) b rest h k) k
  ]
]

-- What is between two line endings is not converted, and each of the endings is.
module _ (target once : List ℕ)
    (again : (rest : List ℕ)
      → normalize target (once ++ normalize once rest)
        ≡ target ++ normalize target (normalize once rest)) where
  mutual
    normalize-twice :
        (text : List ℕ) → normalize target (normalize once text) ≡ normalize target text
    normalize-twice [] = refl
    normalize-twice (b ∷ rest) = elim (Bool-cases (b == 0x0d)) [
      | inl h ↦ elim (Bool-cases (starts_with_lf rest)) [
        | inl k ↦
            rw
              (
                normalize-crlf once b rest h k,
                normalize-crlf target b rest h k,
                again (drop 1 rest),
                normalize-twice_skip rest,
              )
              refl
        | inr k ↦
            rw
              (
                normalize-cr once b rest h k,
                normalize-cr target b rest h k,
                again rest,
                normalize-twice rest,
              )
              refl
      ]
      | inr h ↦ elim (Bool-cases (b == 0x0a)) [
        | inl k ↦
            rw
              (
                normalize-lf once b rest h k,
                normalize-lf target b rest h k,
                again rest,
                normalize-twice rest,
              )
              refl
        | inr k ↦
            rw
              (
                normalize-plain once b rest h k,
                normalize-plain target b rest h k,
                normalize-plain target b (normalize once rest) h k,
                normalize-twice rest,
              )
              refl
      ]
    ]

    normalize-twice_skip :
        (text : List ℕ)
        → normalize target (normalize once (drop 1 text)) ≡ normalize target (drop 1 text)
    normalize-twice_skip [] = refl
    normalize-twice_skip (b ∷ rest) = normalize-twice rest

again_cr :
    (target rest : List ℕ)
    → normalize target ((0x0d ∷ []) ++ normalize (0x0d ∷ []) rest)
      ≡ target ++ normalize target (normalize (0x0d ∷ []) rest)
again_cr target rest =
    normalize-cr target 0x0d (normalize (0x0d ∷ []) rest) refl (normalize_cr-starts rest)

again_lf :
    (target rest : List ℕ)
    → normalize target ((0x0a ∷ []) ++ normalize (0x0a ∷ []) rest)
      ≡ target ++ normalize target (normalize (0x0a ∷ []) rest)
again_lf target rest = normalize-lf target 0x0a (normalize (0x0a ∷ []) rest) refl refl

again_crlf :
    (target rest : List ℕ)
    → normalize target ((0x0d ∷ 0x0a ∷ []) ++ normalize (0x0d ∷ 0x0a ∷ []) rest)
      ≡ target ++ normalize target (normalize (0x0d ∷ 0x0a ∷ []) rest)
again_crlf target rest =
    normalize-crlf target 0x0d (0x0a ∷ normalize (0x0d ∷ 0x0a ∷ []) rest) refl refl

normalize-converted :
    (target : List ℕ) (once : LineEnding) (text : List ℕ)
    → normalize target (convert_line_endings once text) ≡ normalize target text
normalize-converted target cr text =
    rw ((convert_line_endings-normalize text).0)
      (normalize-twice target (0x0d ∷ []) (again_cr target) text)
normalize-converted target lf text =
    rw ((convert_line_endings-normalize text).1)
      (normalize-twice target (0x0a ∷ []) (again_lf target) text)
normalize-converted target crlf text =
    rw ((convert_line_endings-normalize text).2)
      (normalize-twice target (0x0d ∷ 0x0a ∷ []) (again_crlf target) text)
normalize-converted target raw text = rw ((convert_line_endings-normalize text).3) refl

-- Whatever a text was converted to before, converting it to CR, to LF or to CR LF gives what the
-- text itself converts to.
convert_line_endings-twice :
    (once : LineEnding) (text : List ℕ)
    → (convert_line_endings cr (convert_line_endings once text) ≡ convert_line_endings cr text)
      × (convert_line_endings lf (convert_line_endings once text) ≡ convert_line_endings lf text)
      × (convert_line_endings crlf (convert_line_endings once text)
          ≡ convert_line_endings crlf text)
convert_line_endings-twice once text =
    let before = convert_line_endings-normalize (convert_line_endings once text) in
    let direct = convert_line_endings-normalize text in
    (
      before.0 ∙ normalize-converted (0x0d ∷ []) once text ∙ sym direct.0,
      before.1 ∙ normalize-converted (0x0a ∷ []) once text ∙ sym direct.1,
      before.2 ∙ normalize-converted (0x0d ∷ 0x0a ∷ []) once text ∙ sym direct.2,
    )
