-- ===== src/Xmodem/Packet.antt =====
-- src/xmodem-sender.ts: the checks and the packets of XMODEM, and the blocks of a file.
use Prim.Native.Nat.{bit_and, bit_xor}
use bitsby.Prelude.{
  ℕ, zero, suc, ◌+◌, ◌-◌, ◌*◌, ◌/◌, ◌%◌, ◌^◌, min, Bool, List, [], ◌∷◌, ◌++◌, ltb, if◌then◌else◌,
  length, replicate, subarray, copy,
}

abbrev pub soh : ℕ
soh = 0x01

abbrev pub eot : ℕ
eot = 0x04

abbrev pub ack : ℕ
ack = 0x06

abbrev pub nak : ℕ
nak = 0x15

abbrev pub can : ℕ
can = 0x18

-- 'C', the request of CRC mode
abbrev pub crc_request : ℕ
crc_request = 0x43

abbrev pub sub : ℕ
sub = 0x1a

abbrev pub block_size : ℕ
block_size = 128

abbrev pub max_retries : ℕ
max_retries = 10

-- One round of the inner loop: shift left, and subtract the polynomial if a bit falls out.
abbrev pub crc_bit : ℕ → ℕ
crc_bit crc = (if ltb 0 (bit_and crc 0x8000) then bit_xor (crc * 2) 0x1021 else crc * 2) % 2 ^ 16

abbrev pub crc_bits : ℕ → ℕ → ℕ
crc_bits zero crc = crc
crc_bits (suc rounds) crc = crc_bits rounds (crc_bit crc)

unfoldable pub crc_from : ℕ → List ℕ → ℕ
crc_from crc [] = crc
crc_from crc (b ∷ bs) = crc_from (crc_bits 8 (bit_xor crc (b * 256))) bs

unfoldable pub crc16xmodem : List ℕ → ℕ
unfolding crc_from
crc16xmodem bytes = crc_from 0 bytes

unfoldable pub checksum_from : ℕ → List ℕ → ℕ
checksum_from sum [] = sum
checksum_from sum (b ∷ bs) = checksum_from ((sum + b) % 256) bs

unfoldable pub checksum_xmodem : List ℕ → ℕ
unfolding checksum_from
checksum_xmodem bytes = checksum_from 0 bytes

-- The check bytes behind the data.
unfoldable pub trailer : Bool → List ℕ → List ℕ
trailer crc_mode bytes =
    if crc_mode
    then (crc16xmodem bytes / 256 % 256) ∷ (crc16xmodem bytes % 256) ∷ []
    else checksum_xmodem bytes ∷ []

-- A packet for a block of 128 bytes: SOH, the number, its complement, the data, the check.
unfoldable pub build_packet : ℕ → List ℕ → Bool → List ℕ
unfolding trailer
build_packet block_num bytes crc_mode =
    soh ∷ block_num ∷ ((255 - block_num) % 256) ∷ (bytes ++ trailer crc_mode bytes)

-- Math.ceil(totalBytes / BLOCK_SIZE)
abbrev pub total_blocks : List ℕ → ℕ
total_blocks file = (length file + block_size - 1) / block_size

-- The data of one block, padded with SUB.
unfoldable pub data_block : List ℕ → ℕ → List ℕ
data_block file block_index =
    let data_start = block_index * block_size in
    let data_end = min (data_start + block_size) (length file) in
    copy (subarray file data_start data_end) (replicate block_size sub) 0
