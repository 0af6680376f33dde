-- ===== src/Rom/Printed.antt =====
-- src/services/rom-image.ts: reading back an Intel HEX file that was printed record by record.
use mathlib.Core.Bool.{true≢false, false≢true}
use bitsby.Text.{is_white, trim_start, trim_end, Solid, trim_end-Solid, trim_start-Solid}
use bitsby.Prelude.{
  ℕ, ◌+◌, ◌-◌, ◌*◌, ◌/◌, ◌%◌, ◌<◌, ◌≡◌, refl, sym, ap, ◌∙◌, inl, inr, Bool, true, false, not,
  Option, none, some, List, [], ◌∷◌, ◌++◌, ◌==◌, ltb, length, length-append, take, All, IsBytes,
  all_below_sound, Bool-cases, arith, if◌then◌else◌, ltb→lt,
}
use bitsby.Rom.Hex.{
  Chunk, bias, HexState, hex_digit, hex_pairs, sum_from, take_record, check_record, parse_line,
}

-- The digit of a number below 16, in upper case.
abbrev pub digit_of : ℕ → ℕ
digit_of n = if ltb n 10 then b'0' + n else b'A' + n - 10

abbrev pub hex_of : List ℕ → List ℕ
hex_of [] = []
hex_of (b ∷ bytes) = digit_of (b / 16) ∷ digit_of (b % 16) ∷ hex_of bytes

abbrev pub sum_of : List ℕ → ℕ
sum_of [] = 0
sum_of (b ∷ bytes) = b + sum_of bytes

-- The bytes of a record, the check byte last.
abbrev pub head_bytes : ℕ → ℕ → List ℕ → List ℕ
head_bytes type addr bytes = length bytes ∷ addr / 256 ∷ addr % 256 ∷ type ∷ bytes

abbrev pub record_bytes : ℕ → ℕ → List ℕ → List ℕ
record_bytes type addr bytes =
    head_bytes type addr bytes ++ ((256 - sum_of (head_bytes type addr bytes) % 256) % 256 ∷ [])

abbrev pub print_record : ℕ → ℕ → List ℕ → List ℕ
print_record type addr bytes = b':' ∷ hex_of (record_bytes type addr bytes)

-- A line ending of either kind.
abbrev pub line_break : Bool → List ℕ
line_break true = 13 ∷ 10 ∷ []
line_break false = 10 ∷ []

abbrev pub print_hex : Bool → List Chunk → List ℕ
print_hex crlf [] = print_record 1 0 [] ++ line_break crlf
print_hex crlf (c ∷ chunks) =
    print_record 0 c.addr c.bytes ++ (line_break crlf ++ print_hex crlf chunks)

-- A character that is neither white space nor outside ASCII.
abbrev pub Plain : ℕ → Type 0
Plain c = (is_white c ≡ false) × (c < 128)

abbrev is : ℕ → Option ℕ → Bool
is n none = false
is n (some m) = n == m

is-some : (n : ℕ) (o : Option ℕ) → is n o ≡ true → o ≡ some n
is-some n none h = absurd (false≢true h)
is-some n (some m) h = let e : m ≡ n = ground arith in ap some e

hex_digit-digit_of : (n : ℕ) → n < 16 → hex_digit (digit_of n) ≡ some n
hex_digit-digit_of n lt =
    is-some n (hex_digit (digit_of n))
      (all_below_sound 16 (λ k. is k (hex_digit (digit_of k))) n refl lt)

digit_of-Plain : (n : ℕ) → n < 16 → Plain (digit_of n)
unfolding is_white
digit_of-Plain n lt = (
  negated (is_white (digit_of n)) (all_below_sound 16 (λ k. not (is_white (digit_of k))) n refl lt),
  ltb→lt (digit_of n) 128 (all_below_sound 16 (λ k. ltb (digit_of k) 128) n refl lt),
)
  where
    negated : (b : Bool) → not b ≡ true → b ≡ false
    negated true h = absurd (false≢true h)
    negated false h = refl

hex_of-Plain : (bytes : List ℕ) → IsBytes bytes → All Plain (hex_of bytes)
hex_of-Plain [] h = tt
hex_of-Plain (b ∷ bytes) h = (
  digit_of-Plain (b / 16) (omega (arith, h.0)),
  (digit_of-Plain (b % 16) (omega arith), hex_of-Plain bytes h.1),
)

hex_pairs-hex_of : (bytes : List ℕ) → IsBytes bytes → hex_pairs (hex_of bytes) ≡ some bytes
hex_pairs-hex_of [] h = refl
hex_pairs-hex_of (b ∷ bytes) h =
    let whole : b / 16 * 16 + b % 16 ≡ b = omega arith in
    rw
      (
        hex_digit-digit_of (b / 16) (omega (arith, h.0)),
        hex_digit-digit_of (b % 16) (omega arith),
        hex_pairs-hex_of bytes h.1,
      )
      (ap (λ x. some (x ∷ bytes)) whole)

sum_from-sum_of : (a : ℕ) (bytes : List ℕ) → a < 256 → sum_from a bytes ≡ (a + sum_of bytes) % 256
sum_from-sum_of a [] lt = omega arith
sum_from-sum_of a (b ∷ bytes) lt =
    omega (arith, sum_from-sum_of ((a + b) % 256) bytes (omega arith))

sum_of-append : (xs ys : List ℕ) → sum_of (xs ++ ys) ≡ sum_of xs + sum_of ys
sum_of-append [] ys = omega arith
sum_of-append (x ∷ xs) ys = omega (arith, sum_of-append xs ys)

take-append_self : (xs ys : List ℕ) → take (length xs) (xs ++ ys) ≡ xs
take-append_self [] ys = refl
take-append_self (x ∷ xs) ys = ap (λ r. x ∷ r) (take-append_self xs ys)

-- The bytes of a printed record pass the checks.
check_record-printed :
    (line type addr : ℕ) (bytes : List ℕ) (st : HexState)
    → addr < 65536
    → check_record line (record_bytes type addr bytes) st ≡ take_record line type addr bytes st
check_record-printed line type addr bytes st small =
    let check = (256 - sum_of (head_bytes type addr bytes) % 256) % 256 in
    let l = length-append bytes (check ∷ []) in
    let long : ltb (length (record_bytes type addr bytes)) 5 ≡ false = ground (arith, l) in
    let agrees : (length (record_bytes type addr bytes) == 5 + length bytes) ≡ true =
      ground (arith, l) in
    let s = sum_from-sum_of 0 (record_bytes type addr bytes) (omega arith) in
    let t = sum_of-append (head_bytes type addr bytes) (check ∷ []) in
    let zero_sum : sum_from 0 (record_bytes type addr bytes) ≡ 0 = omega (arith, s, t) in
    let whole : addr / 256 * 256 + addr % 256 ≡ addr = omega arith in
    rw (long, agrees, zero_sum, whole, take-append_self bytes (check ∷ [])) refl

Plain-Solid : (s : List ℕ) → All Plain s → Solid s
Plain-Solid [] h = tt
Plain-Solid (c ∷ s) h = (h.0.0, Plain-Solid s h.1)

pub Plain-not_lf : (c : ℕ) → Plain c → (c == 10) ≡ false
unfolding is_white
Plain-not_lf c h = elim (Bool-cases (c == 10)) [
  | inl e ↦ absurd (let ten : c ≡ 10 = ground arith in true≢false (sym (ap is_white ten) ∙ h.0))
  | inr e ↦ e
]

pub Plain-not_cr : (c : ℕ) → Plain c → (c == 13) ≡ false
unfolding is_white
Plain-not_cr c h = elim (Bool-cases (c == 13)) [
  | inl e ↦
      absurd (let thirteen : c ≡ 13 = ground arith in true≢false (sym (ap is_white thirteen) ∙ h.0))
  | inr e ↦ e
]

colon-Plain : Plain b':'
unfolding is_white
colon-Plain = (refl, omega arith)

IsBytes-append : (xs ys : List ℕ) → IsBytes xs → IsBytes ys → IsBytes (xs ++ ys)
IsBytes-append [] ys h k = k
IsBytes-append (x ∷ xs) ys h k = (h.0, IsBytes-append xs ys h.1 k)

pub record_bytes-IsBytes :
    (type addr : ℕ) (bytes : List ℕ)
    → type < 256
    → addr < 65536
    → length bytes < 256
    → IsBytes bytes
    → IsBytes (record_bytes type addr bytes)
record_bytes-IsBytes type addr bytes t a l h =
    (l, (omega arith, (omega arith, (t, IsBytes-append bytes _ h (omega arith, tt)))))

-- A printed record is one line of plain characters.
pub print_record-Plain :
    (type addr : ℕ) (bytes : List ℕ)
    → IsBytes (record_bytes type addr bytes)
    → All Plain (print_record type addr bytes)
print_record-Plain type addr bytes h = (colon-Plain, hex_of-Plain (record_bytes type addr bytes) h)

-- The state of the loop while the addresses have no base.
abbrev pub reading : List Chunk → Bool → HexState
reading chunks saw_eof = record { base_addr = bias; saw_eof = saw_eof; chunks = chunks }

-- A printed record is read as it is, its type aside.
pub parse_line-printed :
    (line type addr : ℕ) (bytes : List ℕ) (chunks : List Chunk)
    → addr < 65536
    → IsBytes (record_bytes type addr bytes)
    → parse_line line (trim_start (trim_end (print_record type addr bytes))) (reading chunks false)
      ≡ take_record line type addr bytes (reading chunks false)
parse_line-printed line type addr bytes chunks small h =
    let plain = Plain-Solid (print_record type addr bytes) (print_record-Plain type addr bytes h) in
    rw
      (
        trim_end-Solid (print_record type addr bytes) plain,
        trim_start-Solid (print_record type addr bytes) plain,
        hex_pairs-hex_of (record_bytes type addr bytes) h,
      )
      (check_record-printed line type addr bytes (reading chunks false) small)
