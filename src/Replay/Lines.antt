-- ===== src/Replay/Lines.antt =====
-- src/replay-engine.ts: `convertLineEndings`, over a buffer held as the list of its bytes.
use bitsby.Prelude.{
  ℕ, suc, Bool, true, false, List, [], ◌∷◌, ◌++◌, ◌==◌, ltb, length, drop, subarray, if◌then◌else◌,
}

pub data LineEnding : Type 0 where
  cr lf crlf raw : LineEnding

-- `targetBytes`
abbrev pub target_bytes : LineEnding → List ℕ
target_bytes cr = 0x0d ∷ []
target_bytes lf = 0x0a ∷ []
target_bytes crlf = 0x0d ∷ 0x0a ∷ []
target_bytes raw = 0x0d ∷ 0x0a ∷ []

-- Whether the next byte is an LF, with `false` at the end.
abbrev pub starts_with_lf : List ℕ → Bool
starts_with_lf [] = false
starts_with_lf (b ∷ rest) = b == 0x0a

-- Buffer.concat(chunks) of what the loop pushes from index `i` on, with `rest` the bytes from there
-- and `skip` for the `i++` that steps over the LF of a pair.
abbrev pub convert_from : List ℕ → List ℕ → List ℕ → Bool → ℕ → ℕ → List ℕ
convert_from buffer target [] skip i last_end =
    if ltb last_end (length buffer) then drop last_end buffer else []
convert_from buffer target (b ∷ rest) true i last_end =
    convert_from buffer target rest false (suc i) last_end
convert_from buffer target (b ∷ rest) false i last_end = elim (b == 0x0d) [
  | true ↦ elim (starts_with_lf rest) [
    | true ↦
        subarray buffer last_end i
        ++ (target ++ convert_from buffer target rest true (suc i) (suc (suc i)))
    | false ↦
        subarray buffer last_end i
        ++ (target ++ convert_from buffer target rest false (suc i) (suc i))
  ]
  | false ↦ elim (b == 0x0a) [
    | true ↦
        subarray buffer last_end i
        ++ (target ++ convert_from buffer target rest false (suc i) (suc i))
    | false ↦ convert_from buffer target rest false (suc i) last_end
  ]
]

unfoldable pub convert_line_endings : LineEnding → List ℕ → List ℕ
convert_line_endings cr buffer = convert_from buffer (target_bytes cr) buffer false 0 0
convert_line_endings lf buffer = convert_from buffer (target_bytes lf) buffer false 0 0
convert_line_endings crlf buffer = convert_from buffer (target_bytes crlf) buffer false 0 0
convert_line_endings raw buffer = buffer
