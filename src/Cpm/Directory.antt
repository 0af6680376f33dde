-- ===== src/Cpm/Directory.antt =====
-- src/cpm-filesystem.ts: directory entries, their 32-byte form, and the directory as the first
-- blocks of the disk.
mod Bytes
pub mod Fields
pub mod Entry
pub mod Rewrite
use bitsby.Prelude.{
  ℕ, zero, suc, ◌+◌, ◌-◌, ◌*◌, ◌/◌, ◌%◌, min, Bool, true, false, List, [], ◌∷◌, ◌++◌, ltb, ◌==◌,
  if◌then◌else◌, length, get_or, set_byte, drop, replicate,
}
use bitsby.Cpm.Layout.{CpmDiskParams}
use bitsby.Cpm.Exec.{CpmFilesystem, Reader, Exec, ok, err, bind, ◌>>=◌, ◌>>◌}
use bitsby.Cpm.Block.{read_block, write_block}
use bitsby.Text.{pad_end}

pub record CpmDirEntry : Type 0 where
  pub status : ℕ
  pub filename : List ℕ
  pub extension : List ℕ
  pub extent_low : ℕ
  pub bc : ℕ
  pub extent_high : ℕ
  pub rc : ℕ
  pub block_pointers : List ℕ
  pub raw_attributes : ℕ
  pub readonly : Bool
  pub system : Bool
  pub archive : Bool

-- The low seven bits of `buf[off + i]` for `n` indices from `i`.
abbrev pub chars_at : List ℕ → ℕ → ℕ → ℕ → List ℕ
chars_at buf off i zero = []
chars_at buf off i (suc n) = (get_or buf (off + i) 0 % 128) ∷ chars_at buf off (i + 1) n

-- buf[off + i] for `n` indices from `i`
abbrev pub bytes_at : List ℕ → ℕ → ℕ → ℕ → List ℕ
bytes_at buf off i zero = []
bytes_at buf off i (suc n) = get_or buf (off + i) 0 ∷ bytes_at buf off (i + 1) n

-- buf.readUInt16LE(off + i) for `n` indices from `i` in steps of 2
abbrev pub words_at : List ℕ → ℕ → ℕ → ℕ → List ℕ
words_at buf off i zero = []
words_at buf off i (suc n) =
    (get_or buf (off + i) 0 + 256 * get_or buf (off + (i + 1)) 0) ∷ words_at buf off (i + 2) n

-- The high bit of a byte.
abbrev pub high : ℕ → ℕ
high b = b / 128 % 2

abbrev pub bit : Bool → ℕ
bit true = 1
bit false = 0

-- `large` is `useLargePointers`: eight 16-bit pointers, or sixteen 8-bit ones. The 32 bytes lie in
-- the buffer, as those of an entry of a block do; behind its end, where the source meets undefined
-- bytes or throws, this is no model of it.
unfoldable pub parse_dir_entry : Bool → List ℕ → ℕ → CpmDirEntry
parse_dir_entry large buf off =
    let raw_ext0 = get_or buf (off + 9) 0 in
    let raw_ext1 = get_or buf (off + 10) 0 in
    let raw_ext2 = get_or buf (off + 11) 0 in
    record {
      status = get_or buf (off + 0) 0;
      filename = chars_at buf off 1 8;
      extension = (raw_ext0 % 128) ∷ (raw_ext1 % 128) ∷ (raw_ext2 % 128) ∷ [];
      extent_low = get_or buf (off + 12) 0;
      bc = get_or buf (off + 13) 0;
      extent_high = get_or buf (off + 14) 0;
      rc = get_or buf (off + 15) 0;
      block_pointers = if large then words_at buf off 16 8 else bytes_at buf off 16 16;
      raw_attributes = high raw_ext0 * 4 + high raw_ext1 * 2 + high raw_ext2;
      readonly = high raw_ext0 == 1;
      system = high raw_ext1 == 1;
      archive = high raw_ext2 == 1;
    }

-- The bytes of `writeUInt16LE`, for pointers below 65536.
abbrev pub word_bytes : List ℕ → ℕ → ℕ → List ℕ
word_bytes pointers i zero = []
word_bytes pointers i (suc n) =
    (get_or pointers i 0 % 256) ∷ (get_or pointers i 0 / 256) ∷ word_bytes pointers (i + 1) n

-- The values that `serializeDirEntry` writes to `buf[off]`, `buf[off + 1]`, ... in turn.
unfoldable pub entry_bytes : Bool → CpmDirEntry → List ℕ
entry_bytes large entry =
    let ext = pad_end entry.extension 3 in
    entry.status
    ∷ (chars_at (pad_end entry.filename 8) 0 0 8
        ++ ((get_or ext 0 0 % 128 + bit entry.readonly * 128)
            ∷ (get_or ext 1 0 % 128 + bit entry.system * 128)
            ∷ (get_or ext 2 0 % 128 + bit entry.archive * 128)
            ∷ entry.extent_low
            ∷ entry.bc
            ∷ entry.extent_high
            ∷ entry.rc
            ∷ (if large
                then word_bytes entry.block_pointers 0 8
                else bytes_at entry.block_pointers 0 0 16)))

-- buf[pos] = v, buf[pos + 1] = w, ...
abbrev pub write_run : ℕ → List ℕ → List ℕ → List ℕ
write_run pos [] buf = buf
write_run pos (v ∷ vs) buf = write_run (pos + 1) vs (set_byte buf pos v)

unfoldable pub serialize_dir_entry : Bool → CpmDirEntry → List ℕ → ℕ → List ℕ
unfolding entry_bytes
serialize_dir_entry large entry buf off = write_run off (entry_bytes large entry) buf

-- `blocksize / 32`, exact in the presets
abbrev pub entries_per_block : CpmDiskParams → ℕ
entries_per_block p = p.blocksize / 32

-- Math.ceil(maxdir / entriesPerBlock)
abbrev pub dir_blocks : CpmDiskParams → ℕ
dir_blocks p = (p.maxdir + entries_per_block p - 1) / entries_per_block p

-- The entries of one block, from index `e`.
abbrev pub parse_entries : Bool → List ℕ → ℕ → ℕ → List CpmDirEntry
parse_entries large block_data e zero = []
parse_entries large block_data e (suc n) =
    parse_dir_entry large block_data (e * 32) ∷ parse_entries large block_data (e + 1) n

read_directory_from : ℕ → ℕ → Reader (List CpmDirEntry)
unfolding parse_dir_entry
read_directory_from zero b fs = ok []
read_directory_from (suc rounds) b fs = bind (read_block b fs) λ block_data.
    bind (read_directory_from rounds (b + 1) fs) λ rest. ok (
      parse_entries fs.use_large_pointers block_data 0
        (min (entries_per_block fs.params) (fs.params.maxdir - b * entries_per_block fs.params))
      ++ rest)

unfoldable pub read_directory : Reader (List CpmDirEntry)
unfolding read_directory_from
read_directory fs = read_directory_from (dir_blocks fs.params) 0 fs

-- The entries of a block are written over 0xE5, at most `n` of them.
abbrev pub serialize_entries : Bool → ℕ → ℕ → List CpmDirEntry → List ℕ → List ℕ
serialize_entries large e zero entries block_data = block_data
serialize_entries large e (suc n) [] block_data = block_data
serialize_entries large e (suc n) (entry ∷ entries) block_data =
    serialize_entries large (e + 1) n entries (serialize_dir_entry large entry block_data (e * 32))

write_directory_from : ℕ → ℕ → List CpmDirEntry → Exec (Unit {0})
unfolding serialize_dir_entry
write_directory_from zero b entries fs = (ok tt, fs)
write_directory_from (suc rounds) b entries fs =
    (write_block b (
          serialize_entries fs.use_large_pointers 0 (entries_per_block fs.params)
            (drop (b * entries_per_block fs.params) entries) (replicate fs.params.blocksize 0xe5))
        >> write_directory_from rounds (b + 1) entries)
      fs

unfoldable pub write_directory : List CpmDirEntry → Exec (Unit {0})
unfolding write_directory_from
write_directory entries fs = write_directory_from (dir_blocks fs.params) 0 entries fs
