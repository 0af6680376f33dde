-- ===== src/Session/Bytes.antt =====
-- What src/drive-session.ts asks of a file handle: a read of a span into a buffer of zeros, and a
-- write of a span. A file is the list of its bytes.
use native.Mathlib.Decide.{dec_lt}
use bitsby.Prelude.{
  ℕ, zero, suc, ◌+◌, ◌-◌, ◌<◌, ◌≤◌, ◌≡◌, refl, sym, ap, ◌∙◌, ◌⊎◌, inl, inr, List, [], ◌∷◌, ◌++◌,
  arith, length, replicate, get_or, copy, length-append, get_or-copy_in, get_or-copy_ne,
  get_or-append_left, get_or-append_right, list_ext,
}

abbrev pub zeros : ℕ → List ℕ
zeros n = replicate n 0

-- Buffer.alloc(n), and a read into it from a position: behind the end of the file the zeros stay
abbrev pub read_span : List ℕ → ℕ → ℕ → List ℕ
read_span file pos zero = []
read_span file pos (suc n) = get_or file pos 0 ∷ read_span file (pos + 1) n

-- A write at a position; a gap behind the end of the file is filled with zeros.
unfoldable pub write_span : List ℕ → ℕ → List ℕ → List ℕ
write_span file pos bytes = copy bytes (file ++ zeros (pos + length bytes - length file)) pos

length-read_span : (file : List ℕ) (pos n : ℕ) → length (read_span file pos n) ≡ n
length-read_span file pos zero = refl
length-read_span file pos (suc n) = ap suc (length-read_span file (pos + 1) n)

get_or-read_span :
    (file : List ℕ) (pos n k : ℕ)
    → k < n
    → get_or (read_span file pos n) k 0 ≡ get_or file (pos + k) 0
get_or-read_span file pos zero k h = absurd (omega arith)
get_or-read_span file pos (suc n) zero h =
    let e : pos ≡ pos + 0 = omega arith in ap (λ j. get_or file j 0) e
get_or-read_span file pos (suc n) (suc k) h =
    let e : pos + 1 + k ≡ pos + suc k = omega arith in
    get_or-read_span file (pos + 1) n k (omega arith) ∙ ap (λ j. get_or file j 0) e

-- Two files that agree on a span are read alike there.
pub read_span-ext :
    (file file' : List ℕ) (pos n : ℕ)
    → ((j : ℕ) → pos ≤ j → j < pos + n → get_or file j 0 ≡ get_or file' j 0)
    → read_span file pos n ≡ read_span file' pos n
read_span-ext file file' pos zero h = refl
read_span-ext file file' pos (suc n) h = rw (
  h pos (omega arith) (omega arith),
  read_span-ext file file' (pos + 1) n
      (λ j low high. h j (omega (arith, low)) (omega (arith, high))),
)

length-zeros : (n : ℕ) → length (zeros n) ≡ n
length-zeros zero = refl
length-zeros (suc n) = ap suc (length-zeros n)

get_or-zeros : (n j : ℕ) → get_or (zeros n) j 0 ≡ 0
get_or-zeros zero j = refl
get_or-zeros (suc n) zero = refl
get_or-zeros (suc n) (suc j) = get_or-zeros n j

get_or-beyond : (file : List ℕ) (j : ℕ) → length file ≤ j → get_or file j 0 ≡ 0
get_or-beyond [] j h = refl
get_or-beyond (x ∷ file) zero h = absurd (omega arith)
get_or-beyond (x ∷ file) (suc j) h = get_or-beyond file j (omega arith)

get_or-filled : (file : List ℕ) (n j : ℕ) → get_or (file ++ zeros n) j 0 ≡ get_or file j 0
get_or-filled file n j = elim (dec_lt j (length file)) [
  | yes inside ↦ get_or-append_left file (zeros n) j 0 inside
  | no beyond ↦
      get_or-append_right file (zeros n) j (j - length file) 0 (omega arith)
      ∙ get_or-zeros n (j - length file)
      ∙ sym (get_or-beyond file j (omega arith))
]

-- What was written is read back.
pub read_span-written :
    (file : List ℕ) (pos : ℕ) (bytes : List ℕ)
    → read_span (write_span file pos bytes) pos (length bytes) ≡ bytes
unfolding write_span
read_span-written file pos bytes =
    let grown = file ++ zeros (pos + length bytes - length file) in
    let size = length-append file (zeros (pos + length bytes - length file)) in
    let filled = length-zeros (pos + length bytes - length file) in
    list_ext (read_span (copy bytes grown pos) pos (length bytes)) bytes
      (length-read_span (copy bytes grown pos) pos (length bytes))
      λ k h.
        let inside : k < length bytes =
          omega (arith, h, length-read_span (copy bytes grown pos) pos (length bytes)) in
        get_or-read_span (copy bytes grown pos) pos (length bytes) k inside
        ∙ get_or-copy_in bytes grown pos k (pos + k) 0 refl inside (omega (arith, size, filled))

-- A span that a write does not touch is read as before.
pub read_span-apart :
    (file : List ℕ) (pos : ℕ) (bytes : List ℕ) (pos' n : ℕ)
    → (pos' + n ≤ pos) ⊎ (pos + length bytes ≤ pos')
    → read_span (write_span file pos bytes) pos' n ≡ read_span file pos' n
unfolding write_span
read_span-apart file pos bytes pos' n apart =
    let fill = pos + length bytes - length file in
    read_span-ext (write_span file pos bytes) file pos' n λ j low high.
      get_or-copy_ne bytes (file ++ zeros fill) pos j 0 (beside j low high apart)
      ∙ get_or-filled file fill j
  where
    beside :
        (j : ℕ)
        → pos' ≤ j
        → j < pos' + n
        → (pos' + n ≤ pos) ⊎ (pos + length bytes ≤ pos')
        → (j < pos) ⊎ (pos + length bytes ≤ j)
    beside j low high (inl before) = inl (omega (arith, low, high, before))
    beside j low high (inr behind) = inr (omega (arith, low, high, behind))
