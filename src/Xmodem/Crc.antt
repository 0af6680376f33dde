-- ===== src/Xmodem/Crc.antt =====
-- src/xmodem-sender.ts: the check bytes of a packet, against the division of polynomials with
-- coefficients modulo 2, a polynomial being the number whose bits are its coefficients.
use Prim.Native.Nat.{bit_xor, bit_xor-bitwise, digits, differ}
use native.Mathlib.Nat.{pow-suc}
use bitsby.Prelude.{
  ℕ, zero, suc, ◌+◌, ◌*◌, ◌/◌, ◌%◌, ◌^◌, ◌<◌, ◌≡◌, refl, ap, ◌∙◌, true, false, List, [], ◌∷◌, ◌==◌,
  if◌then◌else◌, arith, all_below, all_below_sound, ==_iff, IsBytes,
}
use bitsby.Xmodem.Packet.{
  crc_bit, crc_bits, crc_from, crc16xmodem, checksum_from, checksum_xmodem, trailer,
}

-- x^16 + x^12 + x^5 + 1
abbrev pub divisor : ℕ
divisor = 2 ^ 16 + 2 ^ 12 + 2 ^ 5 + 1

-- The long division of a polynomial of degree below 16 + n: from the highest place on, the divisor
-- is subtracted there if the coefficient is 1. What is left has degree below 16.
abbrev pub divide : ℕ → ℕ → ℕ
divide zero p = p
divide (suc n) p = divide n (if p / 2 ^ (16 + n) % 2 == 1 then bit_xor p (divisor * 2 ^ n) else p)

-- The remainder of a text, times x^16, by Horner's rule: where r is the remainder so far, a byte b
-- makes it that of r x^8 + b x^16.
abbrev pub remainder : ℕ → List ℕ → ℕ
remainder r [] = r
remainder r (b ∷ bytes) = remainder (divide 8 (bit_xor r (b * 256) * 256)) bytes

abbrev pub byte_sum : List ℕ → ℕ
byte_sum [] = 0
byte_sum (b ∷ bytes) = b + byte_sum bytes

byte_divided : all_below 65536 (λ y. crc_bits 8 y == divide 8 (y * 256)) ≡ true
byte_divided = refl

crc_bits-below : (rounds crc : ℕ) → crc < 65536 → crc_bits rounds crc < 65536
crc_bits-below zero crc h = h
crc_bits-below (suc rounds) crc h = crc_bits-below rounds (crc_bit crc) (omega arith)

crc_bits-word : (rounds crc : ℕ) → crc_bits (suc rounds) crc < 65536
crc_bits-word rounds crc = crc_bits-below rounds (crc_bit crc) (omega arith)

differ-below : (a b : ℕ) → a < 2 → b < 2 → differ a b < 2
differ-below zero b h k = k
differ-below (suc zero) zero h k = omega arith
differ-below (suc zero) (suc b) h k = omega arith
differ-below (suc (suc a)) b h k = absurd (omega arith)

digits-below : (n k a b : ℕ) → a < 2 ^ k → b < 2 ^ k → digits (λ d. d) differ n a b < 2 ^ k
digits-below zero k a b h h' = h'
digits-below (suc n) k zero b h h' = h'
digits-below (suc n) zero (suc a) b h h' = absurd (omega arith)
digits-below (suc n) (suc k) (suc a) b h h' =
    let grown = pow-suc 2 k in
    let halves =
      digits-below n k (suc a / 2) (b / 2) (omega (arith, h, grown)) (omega (arith, h', grown)) in
    let last = differ-below (suc a % 2) (b % 2) (omega arith) (omega arith) in
    omega (arith, grown, halves, last)

bit_xor-below : (a b : ℕ) → a < 65536 → b < 65536 → bit_xor a b < 65536
bit_xor-below a b h h' = let d = digits-below a 16 a b h h' in omega (arith, bit_xor-bitwise a b, d)

byte_step : (y : ℕ) → y < 65536 → crc_bits 8 y ≡ divide 8 (y * 256)
byte_step y h =
    (==_iff (crc_bits 8 y) (divide 8 (y * 256))).0
      (all_below_sound 65536 (λ x. crc_bits 8 x == divide 8 (x * 256)) y byte_divided h)

crc_from-remainder :
    (crc : ℕ) (bytes : List ℕ)
    → crc < 65536
    → IsBytes bytes
    → (crc_from crc bytes ≡ remainder crc bytes) × (crc_from crc bytes < 65536)
unfolding crc_from
crc_from-remainder crc [] h is_bytes = (refl, h)
crc_from-remainder crc (b ∷ bytes) h (byte, is_bytes) =
    let y = bit_xor crc (b * 256) in
    let rest = crc_from-remainder (crc_bits 8 y) bytes (crc_bits-word 7 y) is_bytes in
    (
      rest.0
          ∙ ap (λ r. remainder r bytes)
              (byte_step y (bit_xor-below crc (b * 256) h (omega (arith, byte)))),
      rest.1,
    )

checksum_from-byte_sum :
    (sum : ℕ) (bytes : List ℕ) → sum < 256 → checksum_from sum bytes ≡ (sum + byte_sum bytes) % 256
unfolding checksum_from
checksum_from-byte_sum sum [] h = omega arith
checksum_from-byte_sum sum (b ∷ bytes) h =
    checksum_from-byte_sum ((sum + b) % 256) bytes (omega arith) ∙ omega arith

-- The check of a packet in CRC mode is, high byte first, the remainder of the data, as a polynomial
-- with coefficients modulo 2, times x^16 on division by x^16 + x^12 + x^5 + 1; in checksum mode it
-- is the sum of the data modulo 256.
pub trailer-remainder :
    (bytes : List ℕ)
    → IsBytes bytes
    → (trailer true bytes ≡ (remainder 0 bytes / 256) ∷ (remainder 0 bytes % 256) ∷ [])
      × (trailer false bytes ≡ (byte_sum bytes % 256) ∷ [])
unfolding trailer crc16xmodem checksum_xmodem
trailer-remainder bytes is_bytes =
    let (same, below) = crc_from-remainder 0 bytes (omega arith) is_bytes in
    let sum : checksum_from 0 bytes ≡ byte_sum bytes % 256 =
      checksum_from-byte_sum 0 bytes (omega arith) ∙ omega arith in
    let high : crc_from 0 bytes / 256 % 256 ≡ crc_from 0 bytes / 256 = omega (arith, below) in
    (
      ap (λ h. h ∷ (crc_from 0 bytes % 256) ∷ []) high ∙ ap (λ r. (r / 256) ∷ (r % 256) ∷ []) same,
      ap (λ c. c ∷ []) sum,
    )
