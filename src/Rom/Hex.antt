-- ===== src/Rom/Hex.antt =====
-- src/services/rom-image.ts: `parseIntelHex`. An address may be negative, since an extended linear
-- address is shifted as a 32-bit integer: `Chunk.addr` is the address plus 2^31.
use bitsby.Text.{trim_start, trim_end}
use bitsby.Prelude.{
  ℕ, ◌+◌, ◌-◌, ◌*◌, ◌%◌, ◌^◌, Bool, true, false, not, ◌&&◌, ◌||◌, Option, none, some, List, [], ◌∷◌,
  ◌++◌, ◌==◌, ltb, leb, length, get_or, take, drop, map, if◌then◌else◌,
}

-- One constructor for each `throw new RomImageError(...)`, with what its message names.
pub data RomImageError : Type 0 where
  missing_record_start : ℕ → RomImageError
  data_after_eof : ℕ → RomImageError
  not_valid_hex : ℕ → RomImageError
  record_too_short : ℕ → RomImageError
  byte_count_disagrees : ℕ → ℕ → RomImageError
  bad_checksum : ℕ → RomImageError
  unsupported_record_type : ℕ → ℕ → RomImageError
  missing_eof : RomImageError
  no_data_records : RomImageError
  size_not_positive : RomImageError
  no_data : RomImageError
  outside_window : ℕ → ℕ → RomImageError
  spans_too_much : ℕ → RomImageError

pub data Result {ℓ} (A : Type ℓ) : Type ℓ where
  done : A → Result A
  failed : RomImageError → Result A

pub record Chunk : Type 0 where
  pub addr : ℕ
  pub bytes : List ℕ

abbrev pub bias : ℕ
bias = 2 ^ 31

-- The locals of the loop over the lines.
pub record HexState : Type 0 where
  pub base_addr : ℕ
  pub saw_eof : Bool
  pub chunks : List Chunk

-- The value of [0-9a-fA-F]
abbrev pub hex_digit : ℕ → Option ℕ
hex_digit c =
    if leb b'0' c && leb c b'9'
    then some (c - b'0')
    else if leb b'A' c && leb c b'F'
    then some (c - b'A' + 10)
    else if leb b'a' c && leb c b'f'
    then some (c - b'a' + 10)
    else none

abbrev pub push_byte : Option ℕ → Option ℕ → Option (List ℕ) → Option (List ℕ)
push_byte (some h) (some l) (some rest) = some ((h * 16 + l) ∷ rest)
push_byte none l rest = none
push_byte (some h) none rest = none
push_byte (some h) (some l) none = none

-- The bytes of pairs of digits, with `none` for an odd length or another character.
abbrev pub hex_pairs : List ℕ → Option (List ℕ)
hex_pairs [] = some []
hex_pairs (h ∷ []) = none
hex_pairs (h ∷ l ∷ rest) = push_byte (hex_digit h) (hex_digit l) (hex_pairs rest)

abbrev pub body_bytes : List ℕ → Option (List ℕ)
body_bytes [] = none
body_bytes (c ∷ body) = hex_pairs (c ∷ body)

-- b.reduce((a, x) => (a + x) & 0xff, 0)
abbrev pub sum_from : ℕ → List ℕ → ℕ
sum_from a [] = a
sum_from a (x ∷ b) = sum_from ((a + x) % 256) b

-- (data[0] << 8) | data[1], where a byte that is not there counts as 0
abbrev pub word_of : List ℕ → ℕ
word_of bytes = get_or bytes 0 0 * 256 + get_or bytes 1 0

-- The switch on the record type.
abbrev pub take_record : ℕ → ℕ → ℕ → List ℕ → HexState → Result HexState
take_record line type addr bytes st =
    if type == 0
    then done (record st {
      chunks = st.chunks ++ (record { addr = st.base_addr + addr; bytes = bytes } ∷ []);
    })
    else if type == 1
    then done (record st { saw_eof = true })
    else if type == 2
    then done (record st { base_addr = bias + word_of bytes * 16 })
    else if type == 4
    then done (record st { base_addr = (word_of bytes * 2 ^ 16 + bias) % 2 ^ 32 })
    else if type == 3 || type == 5
    then done st
    else failed (unsupported_record_type line type)

abbrev pub check_record : ℕ → List ℕ → HexState → Result HexState
check_record line b st =
    let count = get_or b 0 0 in
    if ltb (length b) 5
    then failed (record_too_short line)
    else if not (length b == 5 + count)
    then failed (byte_count_disagrees line count)
    else if not (sum_from 0 b == 0)
    then failed (bad_checksum line)
    else take_record line (get_or b 3 0) (get_or b 1 0 * 256 + get_or b 2 0) (take count (drop 4 b))
        st

abbrev pub parse_body : ℕ → Option (List ℕ) → HexState → Result HexState
parse_body line none st = failed (not_valid_hex line)
parse_body line (some b) st = check_record line b st

-- One line, trimmed.
abbrev pub parse_line : ℕ → List ℕ → HexState → Result HexState
parse_line line [] st = done st
parse_line line (c ∷ body) st =
    if not (c == b':')
    then failed (missing_record_start line)
    else if st.saw_eof
    then failed (data_after_eof line)
    else parse_body line (body_bytes body) st

-- text.split(/\r?\n/), with `current` the line so far
abbrev pub end_line : List ℕ → List ℕ
end_line [] = []
end_line (c ∷ []) = if c == 13 then [] else c ∷ []
end_line (c ∷ d ∷ line) = c ∷ end_line (d ∷ line)

abbrev pub split_lines : List ℕ → List ℕ → List (List ℕ)
split_lines current [] = current ∷ []
split_lines current (c ∷ text) = elim (c == 10) [
  | true ↦ end_line current ∷ split_lines [] text
  | false ↦ split_lines (current ++ (c ∷ [])) text
]

abbrev pub and_then {ℓ κ} : {A : Type ℓ} {B : Type κ} → Result A → (A → Result B) → Result B
and_then (done a) f = f a
and_then (failed e) f = failed e

abbrev pub parse_lines : ℕ → List (List ℕ) → HexState → Result HexState
parse_lines line [] st = done st
parse_lines line (raw ∷ lines) st =
    and_then (parse_line line (trim_start (trim_end raw)) st) (parse_lines (line + 1) lines)

abbrev pub start_state : HexState
start_state = record { base_addr = bias; saw_eof = false; chunks = [] }

-- The checks after the loop.
abbrev pub chunks_of : HexState → Result (List Chunk)
chunks_of st =
    if not st.saw_eof
    then failed missing_eof
    else if length st.chunks == 0
    then failed no_data_records
    else done st.chunks

unfoldable pub parse_intel_hex : List ℕ → Result (List Chunk)
unfolding trim_start trim_end
parse_intel_hex bytes =
    and_then (parse_lines 1 (split_lines [] (map (λ b. b % 128) bytes)) start_state) chunks_of
