-- ===== src/Prelude/Buffer.antt =====
-- Node's Buffer as a list of bytes: the operations that the sources use, and how writes and
-- reads of separate ranges relate.
use Prim.Native.Nat.{ℕ, zero, suc, ◌+◌, ◌-◌, ◌%◌, ◌<◌, ◌≤◌}
use mathlib.Core.Path.{◌≡◌, refl, ap, ◌∙◌}
use mathlib.Core.Logic.{◌⊎◌, inr}
use mathlib.Core.List.{List, [], ◌∷◌}
use native.Mathlib.Omega.{arith}
use bitsby.Prelude.Lists.{
  length, get_or, set, take, drop, length-set, length-take, length-drop, All, get_or-set_ne,
}

abbrev pub IsByte : ℕ → Type 0
IsByte b = b < 256

abbrev pub IsBytes : List ℕ → Type 0
IsBytes = All IsByte

-- buf[i] = v: the low byte is stored, and a write out of range is ignored.
abbrev pub set_byte : List ℕ → ℕ → ℕ → List ℕ
set_byte buf i v = set buf i (v % 256)

-- buf.subarray(from, to)
abbrev pub subarray : List ℕ → ℕ → ℕ → List ℕ
subarray buf from to = take (to - from) (drop from buf)

-- source.copy(target, start): what does not fit in the target is not copied.
abbrev pub copy : List ℕ → List ℕ → ℕ → List ℕ
copy source [] start = []
copy [] (t ∷ target) zero = t ∷ target
copy (s ∷ source) (t ∷ target) zero = s ∷ copy source target zero
copy source (t ∷ target) (suc start) = t ∷ copy source target start

pub length-copy :
    (source target : List ℕ) (start : ℕ) → length (copy source target start) ≡ length target
length-copy source [] start = refl
length-copy [] (t ∷ target) zero = refl
length-copy (s ∷ source) (t ∷ target) zero = ap suc (length-copy source target zero)
length-copy [] (t ∷ target) (suc start) = ap suc (length-copy [] target start)
length-copy (s ∷ source) (t ∷ target) (suc start) = ap suc (length-copy (s ∷ source) target start)

-- What was copied is read back.
take-drop-copy_self :
    (source target : List ℕ) (start : ℕ)
    → start + length source ≤ length target
    → take (length source) (drop start (copy source target start)) ≡ source
take-drop-copy_self [] target start h = refl
take-drop-copy_self (s ∷ source) [] start h = absurd (omega arith)
take-drop-copy_self (s ∷ source) (t ∷ target) zero h =
    ap (λ r. s ∷ r) (take-drop-copy_self source target zero (omega arith))
take-drop-copy_self (s ∷ source) (t ∷ target) (suc start) h =
    take-drop-copy_self (s ∷ source) target start (omega arith)

pub subarray-copy_self :
    (source target : List ℕ) (start to : ℕ)
    → to ≡ start + length source
    → to ≤ length target
    → subarray (copy source target start) start to ≡ source
subarray-copy_self source target start to e h =
    let e' : to - start ≡ length source = omega arith in
    rw e' (take-drop-copy_self source target start (omega arith))

-- A byte outside the copied range is what it was.
pub get_or-copy_ne :
    (source target : List ℕ) (start i d : ℕ)
    → (i < start) ⊎ (start + length source ≤ i)
    → get_or (copy source target start) i d ≡ get_or target i d
get_or-copy_ne source [] start i d h = refl
get_or-copy_ne [] (t ∷ target) zero i d h = refl
get_or-copy_ne (s ∷ source) (t ∷ target) zero zero d h = absurd (omega arith)
get_or-copy_ne (s ∷ source) (t ∷ target) zero (suc i) d h =
    get_or-copy_ne source target zero i d (inr (omega arith))
get_or-copy_ne source (t ∷ target) (suc start) zero d h = refl
get_or-copy_ne source (t ∷ target) (suc start) (suc i) d h =
    get_or-copy_ne source target start i d (omega arith)

-- Two buffers of one length that agree on a range have the same subarray there.
take-ext :
    (n : ℕ) (xs ys : List ℕ)
    → length xs ≡ length ys
    → ((i : ℕ) → i < n → get_or xs i 0 ≡ get_or ys i 0)
    → take n xs ≡ take n ys
take-ext zero xs ys e h = refl
take-ext (suc n) [] [] e h = refl
take-ext (suc n) [] (y ∷ ys) e h = absurd (omega arith)
take-ext (suc n) (x ∷ xs) [] e h = absurd (omega arith)
take-ext (suc n) (x ∷ xs) (y ∷ ys) e h =
    ap₂' (h 0 (omega arith)) (take-ext n xs ys (omega arith) (λ i l. h (suc i) (omega arith)))
  where
    ap₂' : x ≡ y → take n xs ≡ take n ys → x ∷ take n xs ≡ y ∷ take n ys
    ap₂' p q = cc

get_or-drop : (n : ℕ) (xs : List ℕ) (i d : ℕ) → get_or (drop n xs) i d ≡ get_or xs (i + n) d
get_or-drop zero xs i d = ap (λ k. get_or xs k d) (omega arith)
get_or-drop (suc n) [] i d = refl
get_or-drop (suc n) (x ∷ xs) i d = get_or-drop n xs i d ∙ shift
  where
    shift : get_or xs (i + n) d ≡ get_or (x ∷ xs) (i + suc n) d
    shift = let e : i + suc n ≡ suc (i + n) = omega arith in rw e refl

pub subarray-ext :
    (xs ys : List ℕ) (from to : ℕ)
    → length xs ≡ length ys
    → ((i : ℕ) → from ≤ i → i < to → get_or xs i 0 ≡ get_or ys i 0)
    → subarray xs from to ≡ subarray ys from to
subarray-ext xs ys from to e h =
    take-ext (to - from) (drop from xs) (drop from ys)
      (omega (arith, length-drop from xs, length-drop from ys))
      λ i l.
        get_or-drop from xs i 0
        ∙ h (i + from) (omega arith) (omega arith)
        ∙ sym' (get_or-drop from ys i 0)
  where
    sym' : {a b : ℕ} → a ≡ b → b ≡ a
    sym' p = cc

pub subarray-copy_ne :
    (source target : List ℕ) (start from to : ℕ)
    → (to ≤ start) ⊎ (start + length source ≤ from)
    → subarray (copy source target start) from to ≡ subarray target from to
subarray-copy_ne source target start from to h =
    subarray-ext (copy source target start) target from to (length-copy source target start)
      λ i lo hi. get_or-copy_ne source target start i 0 (omega arith)

pub subarray-set_ne :
    (xs : List ℕ) (i v from to : ℕ)
    → (i < from) ⊎ (to ≤ i)
    → subarray (set xs i v) from to ≡ subarray xs from to
subarray-set_ne xs i v from to h =
    subarray-ext (set xs i v) xs from to (length-set xs i v)
      λ j lo hi. get_or-set_ne xs i j v 0 (omega arith)

pub length-subarray :
    (xs : List ℕ) (from to : ℕ) → to ≤ length xs → length (subarray xs from to) ≡ to - from
length-subarray xs from to h =
    omega (arith, length-take (to - from) (drop from xs), length-drop from xs)

-- A byte inside the copied range is the source's.
pub get_or-copy_in :
    (source target : List ℕ) (start k i d : ℕ)
    → i ≡ start + k
    → k < length source
    → start + length source ≤ length target
    → get_or (copy source target start) i d ≡ get_or source k d
get_or-copy_in source [] start k i d e lt fits = absurd (omega arith)
get_or-copy_in [] (t ∷ target) zero k i d e lt fits = absurd (omega arith)
get_or-copy_in (s ∷ source) (t ∷ target) zero zero zero d e lt fits = refl
get_or-copy_in (s ∷ source) (t ∷ target) zero zero (suc i) d e lt fits = absurd (omega arith)
get_or-copy_in (s ∷ source) (t ∷ target) zero (suc k) zero d e lt fits = absurd (omega arith)
get_or-copy_in (s ∷ source) (t ∷ target) zero (suc k) (suc i) d e lt fits =
    get_or-copy_in source target zero k i d (omega arith) (omega arith) (omega arith)
get_or-copy_in source (t ∷ target) (suc start) k zero d e lt fits = absurd (omega arith)
get_or-copy_in [] (t ∷ target) (suc start) k (suc i) d e lt fits = absurd (omega arith)
get_or-copy_in (s ∷ source) (t ∷ target) (suc start) k (suc i) d e lt fits =
    get_or-copy_in (s ∷ source) target start k i d (omega arith) (omega arith) (omega arith)

get_or-take : (n : ℕ) (xs : List ℕ) (i d : ℕ) → i < n → get_or (take n xs) i d ≡ get_or xs i d
get_or-take zero xs i d h = absurd (omega arith)
get_or-take (suc n) [] i d h = refl
get_or-take (suc n) (x ∷ xs) zero d h = refl
get_or-take (suc n) (x ∷ xs) (suc i) d h = get_or-take n xs i d (omega arith)

pub get_or-subarray :
    (xs : List ℕ) (from to i d : ℕ)
    → i < to - from
    → get_or (subarray xs from to) i d ≡ get_or xs (i + from) d
get_or-subarray xs from to i d h =
    get_or-take (to - from) (drop from xs) i d h ∙ get_or-drop from xs i d

-- Two buffers of one length that agree at every index are equal.
pub list_ext :
    (xs ys : List ℕ)
    → length xs ≡ length ys
    → ((i : ℕ) → i < length xs → get_or xs i 0 ≡ get_or ys i 0)
    → xs ≡ ys
list_ext [] [] e h = refl
list_ext [] (y ∷ ys) e h = absurd (omega arith)
list_ext (x ∷ xs) [] e h = absurd (omega arith)
list_ext (x ∷ xs) (y ∷ ys) e h =
    let p : x ≡ y = h 0 (omega arith) in
    let q : xs ≡ ys = list_ext xs ys (omega arith) (λ i l. h (suc i) (omega arith)) in cc
