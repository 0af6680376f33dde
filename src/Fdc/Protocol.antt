-- ===== src/Fdc/Protocol.antt =====
-- src/protocol.ts: the 8-byte command and response block, and its bytes. A string is the list of
-- its character codes.
pub mod RoundTrip
use bitsby.Prelude.{
  ℕ, ◌+◌, ◌-◌, ◌*◌, ◌/◌, ◌%◌, ◌^◌, Bool, true, false, Option, none, some, List, [], ◌∷◌, ◌++◌, map,
  ltb, list_eq, if◌then◌else◌, length, take, replicate, get_or,
}
use bitsby.Text.{trim_start, trim_end}

abbrev pub max_drives : ℕ
max_drives = 16

abbrev pub max_track_len : ℕ
max_track_len = 137 * 32

pub data FdcError : Type 0 where
  fdc_ok not_ready checksum_err write_err : FdcError

abbrev pub error_code : FdcError → ℕ
error_code fdc_ok = 0x00
error_code not_ready = 0x01
error_code checksum_err = 0x02
error_code write_err = 0x03

pub data FdcCommand : Type 0 where
  stat read writ : FdcCommand

abbrev pub stat_text : List ℕ
stat_text = b'S' ∷ b'T' ∷ b'A' ∷ b'T' ∷ []

abbrev pub read_text : List ℕ
read_text = b'R' ∷ b'E' ∷ b'A' ∷ b'D' ∷ []

abbrev pub writ_text : List ℕ
writ_text = b'W' ∷ b'R' ∷ b'I' ∷ b'T' ∷ []

abbrev pub wsta_text : List ℕ
wsta_text = b'W' ∷ b'S' ∷ b'T' ∷ b'A' ∷ []

pub record CommandResponseBlock : Type 0 where
  pub cmd : List ℕ
  pub param1 : ℕ
  pub param2 : ℕ

-- The constructor.
abbrev pub new_block : List ℕ → ℕ → ℕ → CommandResponseBlock
new_block cmd param1 param2 = record {
  cmd = take 4 (cmd ++ replicate (4 - length cmd) 0);
  param1 = param1 % 2 ^ 16;
  param2 = param2 % 2 ^ 16;
}

-- buffer.writeUInt16LE, of a value below 2 ^ 16
abbrev pub uint16_le : ℕ → List ℕ
uint16_le w = (w % 256) ∷ (w / 256 % 256) ∷ []

unfoldable pub to_buffer : CommandResponseBlock → List ℕ
to_buffer block =
    take 4 (map (λ c. c % 256) block.cmd ++ replicate 4 0)
    ++ (uint16_le block.param1 ++ uint16_le block.param2)

-- `none` is the error for a buffer that is too short.
unfoldable pub from_buffer : List ℕ → Option CommandResponseBlock
from_buffer buffer =
    if ltb (length buffer) 8
    then none
    else some (
        new_block (map (λ c. c % 128) (take 4 buffer)) (get_or buffer 4 0 + get_or buffer 5 0 * 256)
          (get_or buffer 6 0 + get_or buffer 7 0 * 256))

unfoldable pub get_command : CommandResponseBlock → Option FdcCommand
unfolding trim_start trim_end
get_command block =
    let text = trim_end (trim_start block.cmd) in
    if list_eq text stat_text
    then some stat
    else if list_eq text read_text
    then some read
    else if list_eq text writ_text
    then some writ
    else none

abbrev pub lsb : ℕ → ℕ
lsb word = word % 256

abbrev pub msb : ℕ → ℕ
msb word = word / 256 % 256
