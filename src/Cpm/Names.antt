-- ===== src/Cpm/Names.antt =====
-- src/cpm-filesystem.ts: `normalizeFilename`. Upper case is that of ASCII; a name with other
-- letters is outside the model.
use bitsby.Prelude.{
  ℕ, ◌+◌, ◌-◌, ◌&&◌, none, some, List, [], ◌∷◌, map, leb, ◌==◌, if◌then◌else◌, take, drop,
  find_index,
}

abbrev pub dot : ℕ
dot = 46

abbrev pub colon : ℕ
colon = 58

unfoldable pub to_upper : ℕ → ℕ
to_upper c = if leb 97 c && leb c 122 then c - 32 else c

-- The parts of `name.split('.')` with index 0 and behind the first dot.
abbrev pub first_part : List ℕ → List ℕ
first_part [] = []
first_part (c ∷ s) = if c == dot then [] else c ∷ first_part s

abbrev pub after_first_dot : List ℕ → List ℕ
after_first_dot [] = []
after_first_dot (c ∷ s) = if c == dot then s else after_first_dot s

pub record Normalized : Type 0 where
  pub filename : List ℕ
  pub extension : List ℕ

-- A user prefix ends in a colon at index 2 at most.
abbrev pub strip_user : List ℕ → List ℕ
strip_user name = elim (find_index (λ c. c == colon) name) [
  | none ↦ name
  | some i ↦ if leb i 2 then drop (i + 1) name else name
]

-- `parts[1] || ''` is the first part of what stands behind the first dot.
unfoldable pub normalize_filename : List ℕ → Normalized
unfolding to_upper
normalize_filename name =
    let clean_name = strip_user name in
    record {
      filename = take 8 (map to_upper (first_part clean_name));
      extension = take 3 (map to_upper (first_part (after_first_dot clean_name)));
    }
