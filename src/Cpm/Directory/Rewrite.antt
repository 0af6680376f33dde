-- ===== src/Cpm/Directory/Rewrite.antt =====
-- src/cpm-filesystem.ts: a directory entry that is written back where it was read from.
use bitsby.Prelude.{
  ℕ, ◌+◌, ◌*◌, ◌/◌, ◌%◌, ◌<◌, ◌≤◌, ◌≡◌, ap, ◌∙◌, Bool, true, false, List, ◌==◌, length, get_or, All,
  arith, IsBytes, list_ext, inl, inr, ◌-◌,
}
use native.Mathlib.Nat.{mod-eq_of_lt}
use native.Mathlib.Decide.{dec_lt}
use bitsby.Cpm.Directory.{
  bytes_at, words_at, high, bit, parse_dir_entry, word_bytes, entry_bytes, write_run,
  serialize_dir_entry,
}
use bitsby.Cpm.Directory.Bytes.{
  get_or-bytes_at, length-write_run, get_or-write_run, get_or-IsByte, get_or-write_run_ne,
}
use bitsby.Cpm.Directory.Entry.{bit-high}

flag_join : (b : ℕ) → b < 256 → b % 128 % 128 + bit (high b == 1) * 128 ≡ b
flag_join b h = omega (arith, bit-high b)

word_bytes_of : (lo hi : ℕ) → lo < 256 → ((lo + 256 * hi) % 256 ≡ lo) × ((lo + 256 * hi) / 256 ≡ hi)
word_bytes_of lo hi h = omega arith

name_joined : (b : ℕ) → b < 128 → b % 128 % 128 ≡ b
name_joined b h = omega arith

-- The pointer bytes of an entry just read.
word_bytes-words_at :
    (buf : List ℕ) (off : ℕ)
    → IsBytes buf
    → word_bytes (words_at buf off 16 8) 0 8 ≡ bytes_at buf off 16 16
word_bytes-words_at buf off h =
    let w = λ (i : ℕ).
      word_bytes_of (get_or buf (off + i) 0) (get_or buf (off + (i + 1)) 0)
        (get_or-IsByte buf h (off + i)) in
    cc (
      (w 16).0,
      (w 16).1,
      (w 18).0,
      (w 18).1,
      (w 20).0,
      (w 20).1,
      (w 22).0,
      (w 22).1,
      (w 24).0,
      (w 24).1,
      (w 26).0,
      (w 26).1,
      (w 28).0,
      (w 28).1,
      (w 30).0,
      (w 30).1,
    )

-- The values that are written for an entry just read are the bytes it was read from, where no
-- byte of the filename has its high bit set.
entry_bytes-parse :
    (large : Bool) (buf : List ℕ) (off : ℕ)
    → IsBytes buf
    → All (λ b. b < 128) (bytes_at buf off 1 8)
    → entry_bytes large (parse_dir_entry large buf off) ≡ bytes_at buf off 0 32
unfolding parse_dir_entry entry_bytes
entry_bytes-parse true buf off h (n1, (n2, (n3, (n4, (n5, (n6, (n7, (n8, t)))))))) = cc (
  name_joined _ n1,
  name_joined _ n2,
  name_joined _ n3,
  name_joined _ n4,
  name_joined _ n5,
  name_joined _ n6,
  name_joined _ n7,
  name_joined _ n8,
  flag_join _ (get_or-IsByte buf h (off + 9)),
  flag_join _ (get_or-IsByte buf h (off + 10)),
  flag_join _ (get_or-IsByte buf h (off + 11)),
  word_bytes-words_at buf off h,
)
entry_bytes-parse false buf off h (n1, (n2, (n3, (n4, (n5, (n6, (n7, (n8, t)))))))) = cc (
  name_joined _ n1,
  name_joined _ n2,
  name_joined _ n3,
  name_joined _ n4,
  name_joined _ n5,
  name_joined _ n6,
  name_joined _ n7,
  name_joined _ n8,
  flag_join _ (get_or-IsByte buf h (off + 9)),
  flag_join _ (get_or-IsByte buf h (off + 10)),
  flag_join _ (get_or-IsByte buf h (off + 11)),
)

-- Writing an entry back where it was read from, in a buffer of bytes whose filename bytes there
-- are ASCII, changes nothing.
pub serialize-parse :
    (large : Bool) (buf : List ℕ) (off : ℕ)
    → IsBytes buf
    → off + 32 ≤ length buf
    → All (λ b. b < 128) (bytes_at buf off 1 8)
    → serialize_dir_entry large (parse_dir_entry large buf off) buf off ≡ buf
unfolding serialize_dir_entry
serialize-parse large buf off h fits name = rw (entry_bytes-parse large buf off h name) (
    list_ext (write_run off vs buf) buf (length-write_run vs buf off) λ i lt. elim (dec_lt i off) [
      | yes below ↦ get_or-write_run_ne vs buf off i (inl below)
      | no above ↦ elim (dec_lt i (off + 32)) [
        | yes within ↦ inside i above within
        | no beyond ↦ get_or-write_run_ne vs buf off i (inr (omega arith))
      ]
    ])
  where
    vs : List ℕ
    vs = bytes_at buf off 0 32

    inside :
        (i : ℕ) → ¬ (i < off) → i < off + 32 → get_or (write_run off vs buf) i 0 ≡ get_or buf i 0
    inside i lo hi =
        ap (λ j. get_or (write_run off vs buf) j 0) (omega arith)
        ∙ get_or-write_run vs buf off (i - off) (omega arith) (omega arith)
        ∙ ap (λ b. b % 256) (get_or-bytes_at buf off 0 32 (i - off) (omega arith))
        ∙ mod-eq_of_lt (get_or-IsByte buf h (off + (0 + (i - off))))
        ∙ ap (λ j. get_or buf j 0) (omega arith)
