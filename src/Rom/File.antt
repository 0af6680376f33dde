-- ===== src/Rom/File.antt =====
-- src/services/rom-image.ts: reading back an Intel HEX file, line by line.
use mathlib.Core.List.{append_assoc, append-nil}
use bitsby.Text.{trim_end-Solid, trim_start-Solid}
use bitsby.Prelude.{
  ℕ, suc, ◌+◌, ◌%◌, ◌<◌, ◌≡◌, refl, sym, ap, ◌∙◌, Bool, true, false, List, [], ◌∷◌, ◌++◌, map, ◌==◌,
  length, All, IsBytes, arith,
}
use bitsby.Rom.Hex.{
  done, Chunk, bias, end_line, split_lines, and_then, parse_lines, start_state, chunks_of,
  parse_intel_hex,
}
use bitsby.Rom.Printed.{
  line_break, print_record, print_hex, Plain, Plain-not_lf, Plain-not_cr, record_bytes,
  record_bytes-IsBytes, print_record-Plain, reading, parse_line-printed,
}

-- A line ends where its line break stands.
end_line-Plain : (s : List ℕ) → All Plain s → end_line s ≡ s
end_line-Plain [] h = refl
end_line-Plain (c ∷ []) h = rw (Plain-not_cr c h.0) refl
end_line-Plain (c ∷ d ∷ s) h = ap (λ r. c ∷ r) (end_line-Plain (d ∷ s) h.1)

end_line-cr : (s : List ℕ) → end_line (s ++ (13 ∷ [])) ≡ s
end_line-cr [] = refl
end_line-cr (c ∷ []) = refl
end_line-cr (c ∷ d ∷ s) = ap (λ r. c ∷ r) (end_line-cr (d ∷ s))

split_lines-Plain :
    (current s text : List ℕ)
    → All Plain s
    → split_lines current (s ++ text) ≡ split_lines (current ++ s) text
split_lines-Plain current [] text h = ap (λ c. split_lines c text) (sym (append-nil current))
split_lines-Plain current (c ∷ s) text h =
    rw (split_lines, Plain-not_lf c h.0)
      (split_lines-Plain (current ++ (c ∷ [])) s text h.1
        ∙ ap (λ x. split_lines x text) (append_assoc current (c ∷ []) s))

split_lines-line :
    (crlf : Bool) (s text : List ℕ)
    → All Plain s
    → split_lines [] (s ++ (line_break crlf ++ text)) ≡ s ∷ split_lines [] text
split_lines-line true s text h =
    split_lines-Plain [] s (13 ∷ 10 ∷ text) h ∙ ap (λ l. l ∷ split_lines [] text) (end_line-cr s)
split_lines-line false s text h =
    split_lines-Plain [] s (10 ∷ text) h ∙ ap (λ l. l ∷ split_lines [] text) (end_line-Plain s h)

map-ascii :
    (s : List ℕ)
    → All Plain s
    → (text : List ℕ) → map (λ b. b % 128) (s ++ text) ≡ s ++ map (λ b. b % 128) text
map-ascii [] h text = refl
map-ascii (c ∷ s) h text =
    let same : c % 128 ≡ c = omega (arith, h.0.1) in rw (same, map-ascii s h.1 text) refl

map-line_break :
    (crlf : Bool) (text : List ℕ)
    → map (λ b. b % 128) (line_break crlf ++ text) ≡ line_break crlf ++ map (λ b. b % 128) text
map-line_break true text = refl
map-line_break false text = refl

-- A chunk that a record holds.
abbrev pub IsRecord : Chunk → Type 0
IsRecord c = (c.addr < 65536) × (length c.bytes < 256) × IsBytes c.bytes

abbrev pub at_base : Chunk → Chunk
at_base c = record c { addr = bias + c.addr }

-- The lines of a printed file.
abbrev lines_of : List Chunk → List (List ℕ)
lines_of [] = print_record 1 0 [] ∷ [] ∷ []
lines_of (c ∷ chunks) = print_record 0 c.addr c.bytes ∷ lines_of chunks

eof-IsBytes : IsBytes (record_bytes 1 0 [])
eof-IsBytes = record_bytes-IsBytes 1 0 [] (omega arith) (omega arith) (omega arith) tt

chunk-IsBytes : (c : Chunk) → IsRecord c → IsBytes (record_bytes 0 c.addr c.bytes)
chunk-IsBytes c h = record_bytes-IsBytes 0 c.addr c.bytes (omega arith) h.0 h.1 h.2

split_lines-print_hex :
    (crlf : Bool) (chunks : List Chunk)
    → All IsRecord chunks
    → split_lines [] (map (λ b. b % 128) (print_hex crlf chunks)) ≡ lines_of chunks
split_lines-print_hex crlf [] h =
    let plain = print_record-Plain 1 0 [] eof-IsBytes in
    ap (λ t. split_lines [] (map (λ b. b % 128) (print_record 1 0 [] ++ t)))
      (sym (append-nil (line_break crlf)))
    ∙ ap (split_lines []) (map-ascii (print_record 1 0 []) plain (line_break crlf ++ []))
    ∙ ap (λ t. split_lines [] (print_record 1 0 [] ++ t)) (map-line_break crlf [])
    ∙ split_lines-line crlf (print_record 1 0 []) [] plain
split_lines-print_hex crlf (c ∷ chunks) h =
    let s = print_record 0 c.addr c.bytes in
    let plain = print_record-Plain 0 c.addr c.bytes (chunk-IsBytes c h.0) in
    ap (split_lines []) (map-ascii s plain (line_break crlf ++ print_hex crlf chunks))
    ∙ ap (λ t. split_lines [] (s ++ t)) (map-line_break crlf (print_hex crlf chunks))
    ∙ split_lines-line crlf s (map (λ b. b % 128) (print_hex crlf chunks)) plain
    ∙ ap (λ l. s ∷ l) (split_lines-print_hex crlf chunks h.1)

parse_lines-printed :
    (line : ℕ) (before chunks : List Chunk)
    → All IsRecord chunks
    → parse_lines line (lines_of chunks) (reading before false)
      ≡ done (reading (before ++ map at_base chunks) true)
parse_lines-printed line before [] h =
    ap (λ r. and_then r (parse_lines (line + 1) ([] ∷ [])))
      (parse_line-printed line 1 0 [] before (omega arith) eof-IsBytes)
    ∙ rw (trim_end-Solid [] tt, trim_start-Solid [] tt, append-nil before) refl
parse_lines-printed line before (c ∷ chunks) h =
    ap (λ r. and_then r (parse_lines (line + 1) (lines_of chunks)))
      (parse_line-printed line 0 c.addr c.bytes before h.0.0 (chunk-IsBytes c h.0))
    ∙ parse_lines-printed (line + 1) (before ++ (at_base c ∷ [])) chunks h.1
    ∙ ap (λ l. done (reading l true)) (append_assoc before (at_base c ∷ []) (map at_base chunks))

-- An Intel HEX file with a record for each of some chunks, of addresses below 64 KB and at most 255
-- bytes, and the end-of-file record, its lines ended by LF or CR LF, is read as those chunks.
pub parse_intel_hex-print_hex :
    (crlf : Bool) (c : Chunk) (chunks : List Chunk)
    → All IsRecord (c ∷ chunks)
    → parse_intel_hex (print_hex crlf (c ∷ chunks)) ≡ done (map at_base (c ∷ chunks))
unfolding parse_intel_hex
parse_intel_hex-print_hex crlf c chunks h =
    let some_chunk : (suc (length (map at_base chunks)) == 0) ≡ false = ground arith in
    ap (λ l. and_then (parse_lines 1 l start_state) chunks_of)
      (split_lines-print_hex crlf (c ∷ chunks) h)
    ∙ ap (λ r. and_then r chunks_of) (parse_lines-printed 1 [] (c ∷ chunks) h)
    ∙ rw some_chunk refl
