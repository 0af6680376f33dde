-- ===== src/Fdc/Server/Status.antt =====
-- src/server.ts: the status word of STAT.
use Prim.Native.Nat.{bit_or}
use mathlib.Core.Path.{subst}
use native.Mathlib.Nat.{mul_assoc, mul-add, pow-suc}
use bitsby.Prelude.{
  ℕ, zero, suc, ◌+◌, ◌*◌, ◌/◌, ◌%◌, ◌^◌, ◌<◌, ◌≤◌, ◌≡◌, refl, ap, sym, ◌∙◌, Bool, true, false,
  Option, List, ◌==◌, if◌then◌else◌, arith, all_below, all_below_sound, ==_iff, ◌∷◌, [], ◌++◌,
}
use bitsby.Fdc.Protocol.{CommandResponseBlock, to_buffer, max_drives}
use bitsby.Fdc.Server.{DriveEngine, returned, status_from, is_ready, note_stat, handle_stat}
use bitsby.Fdc.Server.Write.{clear_line}

-- Setting bit `i` of a word with no bit from `i` on adds a power of two.
adds : ℕ → Bool
adds i = all_below (2 ^ i) (λ status. bit_or status (2 ^ i) == status + 2 ^ i)

adds-of_drives : all_below 16 adds ≡ true
unfolding adds
adds-of_drives = refl

bit_or-power : (i status : ℕ) → i < 16 → status < 2 ^ i → bit_or status (2 ^ i) ≡ status + 2 ^ i
unfolding adds
bit_or-power i status hi h = (==_iff (bit_or status (2 ^ i)) (status + 2 ^ i)).0 (
    all_below_sound (2 ^ i) (λ s. bit_or s (2 ^ i) == s + 2 ^ i) status
      (all_below_sound 16 adds i adds-of_drives hi) h)

-- The number whose bits are given, the lowest first.
abbrev pub number_of : (ℕ → Bool) → ℕ → ℕ → ℕ
number_of ready zero i = 0
number_of ready (suc n) i = (if ready i then 1 else 0) + 2 * number_of ready n (i + 1)

-- Bit `i` of a number: halve it `i` times, and see whether it is odd.
abbrev pub bit_at : ℕ → ℕ → ℕ
bit_at n zero = n % 2
bit_at n (suc i) = bit_at (n / 2) i

double : (p v : ℕ) → p * 2 * v ≡ p * (2 * v)
double p v = mul_assoc p 2 v

next_power : (i : ℕ) → 2 ^ (i + 1) ≡ 2 ^ i * 2
next_power i = let e : i + 1 ≡ suc i = omega arith in ap (λ k. 2 ^ k) e ∙ pow-suc 2 i

status_from-number_of :
    (ready : ℕ → Bool) (n i status : ℕ)
    → i + n ≤ 16
    → status < 2 ^ i
    → status_from ready n i status ≡ status + 2 ^ i * number_of ready n i
unfolding status_from
status_from-number_of ready zero i status le h = omega arith
status_from-number_of ready (suc n) i status le h =
    let p = 2 ^ i in
    let v = number_of ready n (i + 1) in
    let grown : 2 ^ (i + 1) ≡ p * 2 = next_power i in
    elim (ready i)
      as (λ t.
        status_from ready n (i + 1) (if t then bit_or status p else status)
        ≡ status + p * ((if t then 1 else 0) + 2 * v)) [
          | true ↦ rw (bit_or-power i status (omega arith) h) (
              status_from-number_of ready n (i + 1) (status + p) (omega arith)
                (omega (arith, grown))
              ∙ ap (λ q. status + p + q * v) grown
              ∙ omega (arith, double p v, mul-add p 1 (2 * v)))
          | false ↦
              status_from-number_of ready n (i + 1) status (omega arith) (omega (arith, grown))
              ∙ ap (λ q. status + q * v) grown
              ∙ omega (arith, double p v)
        ]

lowest : (t : Bool) (v : ℕ) → ((if t then 1 else 0) + 2 * v) % 2 ≡ (if t then 1 else 0)
lowest true v = omega arith
lowest false v = omega arith

half : (t : Bool) (v : ℕ) → ((if t then 1 else 0) + 2 * v) / 2 ≡ v
half true v = omega arith
half false v = omega arith

bit_at-number_of :
    (ready : ℕ → Bool) (n i j : ℕ)
    → j < n
    → bit_at (number_of ready n i) j ≡ (if ready (i + j) then 1 else 0)
bit_at-number_of ready zero i j h = absurd (omega arith)
bit_at-number_of ready (suc n) i zero h =
    let e : i ≡ i + 0 = omega arith in
    lowest (ready i) (number_of ready n (i + 1)) ∙ ap (λ k. if ready k then 1 else 0) e
bit_at-number_of ready (suc n) i (suc j) h =
    let e : i + 1 + j ≡ i + suc j = omega arith in
    ap (λ m. bit_at m j) (half (ready i) (number_of ready n (i + 1)))
    ∙ bit_at-number_of ready n (i + 1) j (omega arith)
    ∙ ap (λ k. if ready k then 1 else 0) e

status_from-all :
    (ready : ℕ → Bool) → status_from ready max_drives 0 0 ≡ number_of ready max_drives 0
status_from-all ready =
    status_from-number_of ready max_drives 0 0 (omega arith) (omega arith) ∙ omega arith

number_of-below : (ready : ℕ → Bool) (n i : ℕ) → number_of ready n i < 2 ^ n
number_of-below ready zero i = omega arith
number_of-below ready (suc n) i =
    let less = number_of-below ready n (i + 1) in
    let grown = pow-suc 2 n in
    elim (ready i) as (λ t. (if t then 1 else 0) + 2 * number_of ready n (i + 1) < 2 ^ suc n) [
      | true ↦ omega (arith, less, grown)
      | false ↦ omega (arith, less, grown)
    ]

-- A STAT command is answered, where the send succeeds, by the block that was received with another
-- second parameter, a 16-bit word in which the bit of each of the sixteen drives is set exactly if
-- the drive is mounted and not in its swap window once the head and the track have been noted.
pub handle_stat-status :
    {S : Type 0} (engine : DriveEngine S) (cmd : CommandResponseBlock) (s : S) (log : List (List ℕ))
    (receives : List (Option (List ℕ))) (drive : ℕ)
    → drive < max_drives
    → (word : ℕ) × (handle_stat engine cmd (clear_line s log receives) ≡ (
      returned,
      clear_line
          (note_stat engine cmd s)
          (log ++ (to_buffer (record cmd { param2 = word }) ∷ []))
          receives,
    ))
      × (word < 2 ^ 16)
      × (bit_at word drive ≡ (if is_ready engine (note_stat engine cmd s) drive then 1 else 0))
unfolding handle_stat
handle_stat-status engine cmd s log receives drive h =
    let ready = is_ready engine (note_stat engine cmd s) in
    let e : 0 + drive ≡ drive = omega arith in
    (
      status_from ready max_drives 0 0,
      refl,
      subst (λ n. n < 2 ^ 16) (sym (status_from-all ready)) (number_of-below ready max_drives 0),
      ap (λ n. bit_at n drive) (status_from-all ready)
          ∙ bit_at-number_of ready max_drives 0 drive h
          ∙ ap (λ k. if ready k then 1 else 0) e,
    )
