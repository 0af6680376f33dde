-- ===== src/Xmodem/Receiver.antt =====
-- What a receiver of the XMODEM protocol makes of a packet of src/xmodem-sender.ts.
use bitsby.Prelude.{
  ℕ, zero, suc, ◌+◌, ◌-◌, ◌%◌, ◌<◌, ◌≡◌, refl, ap, Bool, true, ◌&&◌, Option, none, some, List, [],
  ◌∷◌, ◌++◌, ◌==◌, if◌then◌else◌, length, take, drop, list_eq, list_eq_refl, arith,
}
use bitsby.Xmodem.Packet.{soh, block_size, trailer, build_packet}

-- A receiver takes a packet apart by position, and accepts it if the header byte is SOH, the
-- number and its complement add up to 255, and the bytes behind the 128 of data are their check.
unfoldable pub receive_packet : Bool → List ℕ → Option (ℕ × List ℕ)
receive_packet crc_mode (h ∷ number ∷ complement ∷ rest) =
    let bytes = take block_size rest in
    if h == soh
      && number + complement == 255
      && list_eq (drop block_size rest) (trailer crc_mode bytes)
    then some (number, bytes)
    else none
receive_packet crc_mode _ = none

take-length : (n : ℕ) (xs ys : List ℕ) → length xs ≡ n → take n (xs ++ ys) ≡ xs
take-length zero [] ys e = refl
take-length zero (x ∷ xs) ys e = absurd (omega arith)
take-length (suc n) [] ys e = absurd (omega arith)
take-length (suc n) (x ∷ xs) ys e = ap (λ r. x ∷ r) (take-length n xs ys (omega arith))

drop-length : (n : ℕ) (xs ys : List ℕ) → length xs ≡ n → drop n (xs ++ ys) ≡ ys
drop-length zero [] ys e = refl
drop-length zero (x ∷ xs) ys e = absurd (omega arith)
drop-length (suc n) [] ys e = absurd (omega arith)
drop-length (suc n) (x ∷ xs) ys e = drop-length n xs ys (omega arith)

complement_sum : (n : ℕ) → n < 256 → (n + (255 - n) % 256 == 255) ≡ true
complement_sum n h = ground arith

-- A packet with a number below 256 and 128 bytes of data is accepted in its own mode, and gives
-- back the number and the data.
pub receive-build_packet :
    (crc_mode : Bool) (number : ℕ) (bytes : List ℕ)
    → number < 256
    → length bytes ≡ block_size
    → receive_packet crc_mode (build_packet number bytes crc_mode) ≡ some (number, bytes)
unfolding receive_packet build_packet
receive-build_packet crc_mode number bytes h e = rw (
  take-length block_size bytes (trailer crc_mode bytes) e,
  drop-length block_size bytes (trailer crc_mode bytes) e,
  complement_sum number h,
  list_eq_refl (trailer crc_mode bytes),
)

-- A receiver that waits for the packet with a number keeps its data and waits for the next one;
-- it drops every other packet, and what is no packet.
unfoldable pub keep : ℕ → (ℕ → List ℕ) → Option (ℕ × List ℕ) → List ℕ
keep expected go none = go expected
keep expected go (some (number, bytes)) =
    if number == expected then bytes ++ go ((expected + 1) % 256) else go expected

unfoldable pub reassemble : Bool → ℕ → List (List ℕ) → List ℕ
unfolding keep receive_packet
reassemble crc_mode expected [] = []
reassemble crc_mode expected (p ∷ ps) =
    keep expected (λ n. reassemble crc_mode n ps) (receive_packet crc_mode p)
