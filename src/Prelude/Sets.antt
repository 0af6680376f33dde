-- ===== src/Prelude/Sets.antt =====
-- Sets of numbers as lists in the order of insertion.
use Prim.Native.Nat.{ℕ}
use mathlib.Core.Path.{◌≡◌, refl, sym}
use mathlib.Core.Logic.{inl, inr}
use mathlib.Core.Bool.{Bool, true, false, true≢false}
use mathlib.Core.List.{List, [], ◌∷◌, ◌++◌}
use native.Mathlib.Omega.{arith}
use bitsby.Prelude.Tests.{◌==◌, if◌then◌else◌, Bool-cases}

abbrev pub member : ℕ → List ℕ → Bool
member x [] = false
member x (y ∷ ys) = if x == y then true else member x ys

abbrev pub add_to : ℕ → List ℕ → List ℕ
add_to x set = if member x set then set else set ++ (x ∷ [])

-- No element twice.
abbrev pub Distinct : List ℕ → Type 0
Distinct [] = Unit
Distinct (x ∷ xs) = (member x xs ≡ false) × Distinct xs

pub member-append :
    (sub x : ℕ) (xs : List ℕ) → member sub xs ≡ true → member sub (xs ++ (x ∷ [])) ≡ true
member-append sub x [] h = absurd (true≢false (sym h))
member-append sub x (y ∷ ys) h = elim (Bool-cases (sub == y)) [
  | inl e ↦ rw e refl
  | inr e ↦ rw e (member-append sub x ys (rw e at h))
]

pub member-append_self : (sub : ℕ) (xs : List ℕ) → member sub (xs ++ (sub ∷ [])) ≡ true
member-append_self sub [] = let e : (sub == sub) ≡ true = ground arith in rw e refl
member-append_self sub (y ∷ ys) = elim (Bool-cases (sub == y)) [
  | inl e ↦ rw e refl
  | inr e ↦ rw e (member-append_self sub ys)
]

pub member-append_ne :
    (sub x : ℕ) (xs : List ℕ)
    → (sub == x) ≡ false
    → member sub xs ≡ false
    → member sub (xs ++ (x ∷ [])) ≡ false
member-append_ne sub x [] ne h = rw ne refl
member-append_ne sub x (y ∷ ys) ne h = elim (Bool-cases (sub == y)) [
  | inl e ↦ absurd (true≢false (rw e at h))
  | inr e ↦ rw e (member-append_ne sub x ys ne (rw e at h))
]

pub Distinct-append :
    (x : ℕ) (xs : List ℕ) → member x xs ≡ false → Distinct xs → Distinct (xs ++ (x ∷ []))
Distinct-append x [] h d = (refl, tt)
Distinct-append x (y ∷ ys) h d = elim (Bool-cases (x == y)) [
  | inl e ↦ absurd (true≢false (rw e at h))
  | inr e ↦
      let apart : (y == x) ≡ false = ground arith in
      (member-append_ne y x ys apart d.0, Distinct-append x ys (rw e at h) d.1)
]

pub add_to-Distinct : (x : ℕ) (set : List ℕ) → Distinct set → Distinct (add_to x set)
add_to-Distinct x set d = elim (Bool-cases (member x set)) [
  | inl e ↦ rw e d
  | inr e ↦ rw e (Distinct-append x set e d)
]
