-- ===== src/Cpm/Directory/Fields.antt =====
-- src/cpm-filesystem.ts: the fields of a directory entry and the bytes that hold them.
use bitsby.Prelude.{
  ℕ, ◌+◌, ◌*◌, ◌%◌, ◌<◌, ◌≡◌, refl, Bool, true, false, List, [], ◌∷◌, ◌==◌, if◌then◌else◌, length,
  get_or, All, All-get_or, arith, map,
}
use bitsby.Text.{pad_end}
use bitsby.Cpm.Directory.{CpmDirEntry, bytes_at, high, bit}
use bitsby.Cpm.Directory.Bytes.{bytes_at_self, pad_end-long, map-bytes_at}

-- An entry as it is read from a disk.
pub record IsEntry (large : Bool) (e : CpmDirEntry) : Type 0 where
  pub status : e.status < 256
  pub name_length : length e.filename ≡ 8
  pub name_ascii : All (λ c. c < 128) e.filename
  pub ext_length : length e.extension ≡ 3
  pub ext_ascii : All (λ c. c < 128) e.extension
  pub counts : (e.extent_low < 256) × (e.bc < 256) × (e.extent_high < 256) × (e.rc < 256)
  pub pointer_count : length e.block_pointers ≡ (if large then 8 else 16)
  pub pointers : All (λ p. p < (if large then 65536 else 256)) e.block_pointers
  pub attributes : e.raw_attributes ≡ bit e.readonly * 4 + bit e.system * 2 + bit e.archive

-- The attribute bits share their bytes with the extension's characters.
unfoldable pub flag_byte : ℕ → Bool → ℕ
flag_byte c b = (c % 128 + bit b * 128) % 256

flag_byte-char : (c : ℕ) (b : Bool) → c < 128 → flag_byte c b % 128 ≡ c
unfolding flag_byte
flag_byte-char c true h = omega arith
flag_byte-char c false h = omega arith

flag_byte-high : (c : ℕ) (b : Bool) → high (flag_byte c b) ≡ bit b
unfolding flag_byte
flag_byte-high c true = omega arith
flag_byte-high c false = omega arith

bit-eq : (b : Bool) → (bit b == 1) ≡ b
bit-eq true = refl
bit-eq false = refl

extension_bytes :
    (s : List ℕ) (x y z : Bool)
    → length s ≡ 3
    → All (λ c. c < 128) s
    → (flag_byte (get_or s 0 0) x % 128)
        ∷ (flag_byte (get_or s 1 0) y % 128)
        ∷ (flag_byte (get_or s 2 0) z % 128)
        ∷ []
      ≡ s
extension_bytes s x y z e h =
    rw (flag_byte-char (get_or s 0 0) x (All-get_or _ s 0 0 h (omega arith))) (
      rw (flag_byte-char (get_or s 1 0) y (All-get_or _ s 1 0 h (omega arith))) (
        rw (flag_byte-char (get_or s 2 0) z (All-get_or _ s 2 0 h (omega arith)))
          (bytes_at_self s 3 e)))

name_bytes :
    (s : List ℕ)
    → length s ≡ 8
    → All (λ c. c < 128) s
    → map (λ c. c % 128 % 256 % 128) (bytes_at (pad_end s 8) 0 0 8) ≡ s
name_bytes s e h =
    rw (pad_end-long s 8 (omega arith))
      (map-bytes_at (λ c. c < 128) (λ c. c % 128 % 256 % 128) (λ c h. omega arith) s 8 e h)

-- The single-byte fields and the attribute bits come back.
module _ (large : Bool) (e : CpmDirEntry) (v : IsEntry large e) where
  counts_bytes :
      (e.status % 256 ≡ e.status)
      × (e.extent_low % 256 ≡ e.extent_low)
      × (e.bc % 256 ≡ e.bc)
      × (e.extent_high % 256 ≡ e.extent_high)
      × (e.rc % 256 ≡ e.rc)
  counts_bytes = omega arith

  flags_bytes :
      (high (flag_byte (get_or e.extension 0 0) e.readonly) ≡ bit e.readonly)
      × (high (flag_byte (get_or e.extension 1 0) e.system) ≡ bit e.system)
      × (high (flag_byte (get_or e.extension 2 0) e.archive) ≡ bit e.archive)
  flags_bytes = (
    flag_byte-high (get_or e.extension 0 0) e.readonly,
    flag_byte-high (get_or e.extension 1 0) e.system,
    flag_byte-high (get_or e.extension 2 0) e.archive,
  )

  pub shared_fields :
      (pointers : List ℕ)
      → pointers ≡ e.block_pointers
      → record {
        status = e.status % 256;
        filename = map (λ c. c % 128 % 256 % 128) (bytes_at (pad_end e.filename 8) 0 0 8);
        extension =
            (flag_byte (get_or (pad_end e.extension 3) 0 0) e.readonly % 128)
            ∷ (flag_byte (get_or (pad_end e.extension 3) 1 0) e.system % 128)
            ∷ (flag_byte (get_or (pad_end e.extension 3) 2 0) e.archive % 128)
            ∷ [];
        extent_low = e.extent_low % 256;
        bc = e.bc % 256;
        extent_high = e.extent_high % 256;
        rc = e.rc % 256;
        block_pointers = pointers;
        raw_attributes =
            high (flag_byte (get_or (pad_end e.extension 3) 0 0) e.readonly) * 4
            + high (flag_byte (get_or (pad_end e.extension 3) 1 0) e.system) * 2
            + high (flag_byte (get_or (pad_end e.extension 3) 2 0) e.archive);
        readonly = high (flag_byte (get_or (pad_end e.extension 3) 0 0) e.readonly) == 1;
        system = high (flag_byte (get_or (pad_end e.extension 3) 1 0) e.system) == 1;
        archive = high (flag_byte (get_or (pad_end e.extension 3) 2 0) e.archive) == 1;
      }
        ≡ e
  shared_fields pointers p =
      let (c0, c1, c2, c3, c4) = counts_bytes in
      let (f0, f1, f2) = flags_bytes in
      cc (
        p,
        name_bytes e.filename v.name_length v.name_ascii,
        pad_end-long e.extension 3 (omega (arith, v.ext_length)),
        extension_bytes e.extension e.readonly e.system e.archive v.ext_length v.ext_ascii,
        f0,
        f1,
        f2,
        bit-eq e.readonly,
        bit-eq e.system,
        bit-eq e.archive,
        c0,
        c1,
        c2,
        c3,
        c4,
        v.attributes,
      )
