-- ===== src/Cpm/Directory/Entry.antt =====
-- src/cpm-filesystem.ts: `parseDirEntry` and `serializeDirEntry` undo one another.
use bitsby.Prelude.{
  ℕ, ◌+◌, ◌*◌, ◌/◌, ◌%◌, ◌<◌, ◌≤◌, ◌≡◌, refl, ap, ◌∙◌, sym, Bool, true, false, List, ◌==◌, length,
  get_or, arith, IsBytes, ◌⊎◌,
}
use bitsby.Cpm.Directory.{
  CpmDirEntry, high, bit, parse_dir_entry, entry_bytes, write_run, serialize_dir_entry,
}
use bitsby.Cpm.Directory.Bytes.{
  get_or-write_run, get_or-low_bytes, map-bytes_at, get_or-IsByte, low_bytes, get_or-write_run_ne,
}
use bitsby.Cpm.Directory.Fields.{IsEntry, flag_byte, shared_fields}

-- Two regions of 32 equal bytes hold one entry.
pub parse_dir_entry-cong :
    (large : Bool) (buf buf' : List ℕ) (off off' : ℕ)
    → ((k : ℕ) → k < 32 → get_or buf (off + k) 0 ≡ get_or buf' (off' + k) 0)
    → parse_dir_entry large buf off ≡ parse_dir_entry large buf' off'
unfolding parse_dir_entry
parse_dir_entry-cong true buf buf' off off' same = cc (
  same 0 (omega arith),
  same 1 (omega arith),
  same 2 (omega arith),
  same 3 (omega arith),
  same 4 (omega arith),
  same 5 (omega arith),
  same 6 (omega arith),
  same 7 (omega arith),
  same 8 (omega arith),
  same 9 (omega arith),
  same 10 (omega arith),
  same 11 (omega arith),
  same 12 (omega arith),
  same 13 (omega arith),
  same 14 (omega arith),
  same 15 (omega arith),
  same 16 (omega arith),
  same 17 (omega arith),
  same 18 (omega arith),
  same 19 (omega arith),
  same 20 (omega arith),
  same 21 (omega arith),
  same 22 (omega arith),
  same 23 (omega arith),
  same 24 (omega arith),
  same 25 (omega arith),
  same 26 (omega arith),
  same 27 (omega arith),
  same 28 (omega arith),
  same 29 (omega arith),
  same 30 (omega arith),
  same 31 (omega arith),
)
parse_dir_entry-cong false buf buf' off off' same = cc (
  same 0 (omega arith),
  same 1 (omega arith),
  same 2 (omega arith),
  same 3 (omega arith),
  same 4 (omega arith),
  same 5 (omega arith),
  same 6 (omega arith),
  same 7 (omega arith),
  same 8 (omega arith),
  same 9 (omega arith),
  same 10 (omega arith),
  same 11 (omega arith),
  same 12 (omega arith),
  same 13 (omega arith),
  same 14 (omega arith),
  same 15 (omega arith),
  same 16 (omega arith),
  same 17 (omega arith),
  same 18 (omega arith),
  same 19 (omega arith),
  same 20 (omega arith),
  same 21 (omega arith),
  same 22 (omega arith),
  same 23 (omega arith),
  same 24 (omega arith),
  same 25 (omega arith),
  same 26 (omega arith),
  same 27 (omega arith),
  same 28 (omega arith),
  same 29 (omega arith),
  same 30 (omega arith),
  same 31 (omega arith),
)

-- The bytes of an entry, at offset 0, read as the entry.
parse-entry_bytes :
    (large : Bool) (e : CpmDirEntry)
    → IsEntry large e
    → parse_dir_entry large (low_bytes (entry_bytes large e)) 0 ≡ e
unfolding parse_dir_entry entry_bytes low_bytes flag_byte
parse-entry_bytes true e v = shared_fields true e v _ (
    map-bytes_at (λ p. p < 65536) (λ p. p % 256 % 256 + 256 * (p / 256 % 256)) (λ p h. omega arith)
      e.block_pointers 8 v.pointer_count v.pointers)
parse-entry_bytes false e v = shared_fields false e v _ (
    map-bytes_at (λ p. p < 256) (λ p. p % 256) (λ p h. omega arith) e.block_pointers 16
      v.pointer_count v.pointers)

length-entry_bytes : (large : Bool) (e : CpmDirEntry) → length (entry_bytes large e) ≡ 32
unfolding entry_bytes
length-entry_bytes true e = refl
length-entry_bytes false e = refl

-- A well-formed entry that is written to a buffer with room reads back whole from its place, and
-- every byte of the buffer outside its 32 stays.
pub parse-serialize :
    (large : Bool) (e : CpmDirEntry) (buf : List ℕ) (off : ℕ)
    → IsEntry large e
    → off + 32 ≤ length buf
    → (parse_dir_entry large (serialize_dir_entry large e buf off) off ≡ e)
      × ((i : ℕ)
          → (i < off) ⊎ (off + 32 ≤ i)
          → get_or (serialize_dir_entry large e buf off) i 0 ≡ get_or buf i 0)
unfolding serialize_dir_entry
parse-serialize large e buf off v fits =
    let vs = entry_bytes large e in
    let size = length-entry_bytes large e in
    (
      parse_dir_entry-cong large (write_run off vs buf) (low_bytes vs) off 0 (λ k lt.
            get_or-write_run vs buf off k (omega arith) (omega arith)
            ∙ sym (get_or-low_bytes vs k)
            ∙ ap (λ j. get_or (low_bytes vs) j 0) (omega arith))
          ∙ parse-entry_bytes large e v,
      λ i out. get_or-write_run_ne vs buf off i (omega arith),
    )

pub bit-high : (b : ℕ) → bit (high b == 1) ≡ high b
bit-high b = ground arith

-- What is read from 32 bytes of a buffer of bytes is a well-formed entry.
pub parse-IsEntry :
    (large : Bool) (buf : List ℕ) (off : ℕ)
    → IsBytes buf
    → off + 32 ≤ length buf
    → IsEntry large (parse_dir_entry large buf off)
unfolding parse_dir_entry
parse-IsEntry true buf off h fits = record {
  status = get_or-IsByte buf h (off + 0);
  name_length = refl;
  name_ascii = omega arith;
  ext_length = refl;
  ext_ascii = omega arith;
  counts = omega (arith, get_or-IsByte buf h);
  pointer_count = refl;
  pointers = omega (arith, get_or-IsByte buf h);
  attributes = omega (arith, bit-high);
}
parse-IsEntry false buf off h fits = record {
  status = get_or-IsByte buf h (off + 0);
  name_length = refl;
  name_ascii = omega arith;
  ext_length = refl;
  ext_ascii = omega arith;
  counts = omega (arith, get_or-IsByte buf h);
  pointer_count = refl;
  pointers = omega (arith, get_or-IsByte buf h);
  attributes = omega (arith, bit-high);
}
