-- ===== src/Fdc/Protocol/RoundTrip.antt =====
-- src/protocol.ts: `toBuffer` and `fromBuffer` are inverse.
use mathlib.Core.Path.{subst}
use mathlib.Core.Option
use bitsby.Prelude.{
  ℕ, suc, ◌+◌, ◌*◌, ◌/◌, ◌%◌, ◌^◌, ltb, false, sym, ◌<◌, ◌≡◌, refl, some, List, [], ◌∷◌, ◌++◌,
  arith, length, All, IsBytes,
}
use bitsby.Fdc.Protocol.{CommandResponseBlock, to_buffer, from_buffer}

abbrev IsAscii : ℕ → Type 0
IsAscii c = c < 128

-- Four ASCII characters and two 16-bit words.
abbrev pub IsBlock : CommandResponseBlock → Type 0
IsBlock block =
    (length block.cmd ≡ 4) × All IsAscii block.cmd × (block.param1 < 65536) × (block.param2 < 65536)

narrow : (c : ℕ) → c < 128 → c % 256 % 128 ≡ c
narrow c h = omega arith

rejoin : (w : ℕ) → w < 65536 → (w % 256 + w / 256 % 256 * 256) % 2 ^ 16 ≡ w
rejoin w h = omega arith

no_shorter : (n : ℕ) → ltb (suc (suc (suc (suc (suc (suc (suc (suc n)))))))) 8 ≡ false
no_shorter n = ground arith

masked : (c : ℕ) → c < 128 → c % 128 % 256 ≡ c
masked c h = omega arith

high_byte : (l h : ℕ) → l < 256 → h < 256 → (l + h * 256) % 2 ^ 16 / 256 % 256 ≡ h
high_byte l h hl hh = omega arith

low_byte : (l h : ℕ) → l < 256 → h < 256 → (l + h * 256) % 2 ^ 16 % 256 ≡ l
low_byte l h hl hh = omega arith

characters :
    (cmd : List ℕ)
    → length cmd ≡ 4
    → All IsAscii cmd
    → (a b c d : ℕ) × (cmd ≡ a ∷ b ∷ c ∷ d ∷ []) × (a < 128) × (b < 128) × (c < 128) × (d < 128)
characters [] e h = absurd (omega arith)
characters (a ∷ []) e h = absurd (omega arith)
characters (a ∷ b ∷ []) e h = absurd (omega arith)
characters (a ∷ b ∷ c ∷ []) e h = absurd (omega arith)
characters (a ∷ b ∷ c ∷ d ∷ []) e (ha, (hb, (hc, (hd, _)))) = (a, b, c, d, refl, ha, hb, hc, hd)
characters (a ∷ b ∷ c ∷ d ∷ x ∷ r) e h = absurd (omega arith)

abbrev block_of : List ℕ → ℕ → ℕ → CommandResponseBlock
block_of cmd p q = record { cmd = cmd; param1 = p; param2 = q }

from_buffer-four :
    (a b c d p q : ℕ) (rest : List ℕ)
    → a < 128
    → b < 128
    → c < 128
    → d < 128
    → p < 65536
    → q < 65536
    → from_buffer (to_buffer (block_of (a ∷ b ∷ c ∷ d ∷ []) p q) ++ rest)
      ≡ some (block_of (a ∷ b ∷ c ∷ d ∷ []) p q)
unfolding to_buffer from_buffer
from_buffer-four a b c d p q rest ha hb hc hd hp hq = rw (
  no_shorter (length rest),
  narrow a ha,
  narrow b hb,
  narrow c hc,
  narrow d hd,
  rejoin p hp,
  rejoin q hq,
)

-- What is read from the bytes of a block of four ASCII characters and two 16-bit parameters,
-- whatever follows them, is that block.
pub from_buffer-to_buffer :
    (block : CommandResponseBlock) (rest : List ℕ)
    → IsBlock block
    → from_buffer (to_buffer block ++ rest) ≡ some block
from_buffer-to_buffer block rest (size, ascii, low1, low2) =
    let (a, b, c, d, e, ha, hb, hc, hd) = characters block.cmd size ascii in
    subst
      (λ cmd.
        from_buffer (to_buffer (block_of cmd block.param1 block.param2) ++ rest)
        ≡ some (block_of cmd block.param1 block.param2))
      (sym e) (from_buffer-four a b c d block.param1 block.param2 rest ha hb hc hd low1 low2)

-- The eight bytes that a block was read from, the first four below 128, are the bytes of the block.
to_buffer-from_buffer :
    (a b c d e f g h : ℕ) (rest : List ℕ)
    → All IsAscii (a ∷ b ∷ c ∷ d ∷ [])
    → IsBytes (e ∷ f ∷ g ∷ h ∷ [])
    → Option.map to_buffer (from_buffer (a ∷ b ∷ c ∷ d ∷ e ∷ f ∷ g ∷ h ∷ rest))
      ≡ some (a ∷ b ∷ c ∷ d ∷ e ∷ f ∷ g ∷ h ∷ [])
unfolding to_buffer from_buffer
to_buffer-from_buffer a b c d e f g h rest (ha, (hb, (hc, (hd, _)))) (he, (hf, (hg, (hh, _)))) =
    rw (
      no_shorter (length rest),
      masked a ha,
      masked b hb,
      masked c hc,
      masked d hd,
      low_byte e f he hf,
      high_byte e f he hf,
      low_byte g h hg hh,
      high_byte g h hg hh,
    )
