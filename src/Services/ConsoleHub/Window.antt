-- ===== src/Services/ConsoleHub/Window.antt =====
-- src/services/console-hub.ts: the buffer is a window on the whole output, and a reader that keeps
-- its cursor sees each byte once.
use mathlib.Core.List.{append_assoc, append-nil}
use bitsby.Prelude.{
  ℕ, zero, suc, ◌+◌, ◌-◌, ◌%◌, ◌≤◌, ◌<◌, max, ◌≡◌, refl, sym, ap, ◌∙◌, List, [], ◌∷◌, ◌++◌, ltb,
  length, drop, drop-append, drop-append_right, drop_all, length-drop, length-append, Bool-cases,
  inl, inr, arith,
}
use bitsby.Services.ConsoleHub.{
  max_console_buffer, ConsoleHub, new_hub, trim_buffer, on_output, read_since, subscribe,
  unsubscribe, write, Change, Step, outputs, subscribes, unsubscribes, writes, Steps, stay, next,
}

-- The last `size` bytes of an output.
abbrev pub window : ℕ → List ℕ → List ℕ
window size out = drop (length out - size) out

drop-drop : (m n : ℕ) (xs : List ℕ) → drop m (drop n xs) ≡ drop (m + n) xs
drop-drop m zero xs = let e : m + 0 ≡ m = omega arith in rw e refl
drop-drop m (suc n) [] = drop_all m [] (omega arith) ∙ sym (drop_all (m + suc n) [] (omega arith))
drop-drop m (suc n) (x ∷ xs) =
    let e : m + suc n ≡ suc (m + n) = omega arith in rw e (drop-drop m n xs)

-- One more byte moves a window of a positive size by at most one.
module _ (size b : ℕ) (out : List ℕ) (positive : 0 < size) where
  window-full :
      size ≤ length out
      → drop (length (window size out ++ (b ∷ [])) - size) (window size out ++ (b ∷ []))
        ≡ window size (out ++ (b ∷ []))
  window-full full =
      let l : length (window size out ++ (b ∷ [])) ≡ suc size =
        omega
          (arith, length-append (window size out) (b ∷ []), length-drop (length out - size) out) in
      let one : length (window size out ++ (b ∷ [])) - size ≡ 1 = omega (arith, l) in
      let e : length (out ++ (b ∷ [])) - size ≡ 1 + (length out - size) =
        omega (arith, length-append out (b ∷ [])) in
      rw (one, e)
        (ap (drop 1) (sym (drop-append (length out - size) out (b ∷ []) (omega arith)))
          ∙ drop-drop 1 (length out - size) (out ++ (b ∷ [])))

  window-short : length out < size → window size out ++ (b ∷ []) ≡ window size (out ++ (b ∷ []))
  window-short short =
      let e : length out - size ≡ 0 = omega arith in
      let e' : length (out ++ (b ∷ [])) - size ≡ 0 = omega (arith, length-append out (b ∷ [])) in
      rw (e, e') refl

trim_buffer-window :
    (b : ℕ) (out : List ℕ)
    → trim_buffer (window max_console_buffer out ++ (b ∷ []))
      ≡ window max_console_buffer (out ++ (b ∷ []))
trim_buffer-window b out =
    let size = max_console_buffer in
    let l = length-append (window size out) (b ∷ []) in
    let d = length-drop (length out - size) out in
    elim (Bool-cases (ltb size (length (window size out ++ (b ∷ []))))) [
      | inl h ↦ rw h (window-full size b out (omega arith) (ground (arith, l, d)))
      | inr h ↦ rw h (window-short size b out (omega arith) (ground (arith, l, d)))
    ]

-- What the hub keeps of an output.
abbrev pub Keeps : ConsoleHub → List ℕ → Type 0
Keeps hub out = (hub.buffer ≡ window max_console_buffer out) × (hub.total_bytes ≡ length out)

Step-Keeps :
    (h k : ConsoleHub) (bytes out : List ℕ) (c : Change)
    → Step h bytes c k
    → Keeps h out
    → Keeps k (out ++ bytes)
unfolding on_output subscribe unsubscribe write
Step-Keeps h k bytes out c (outputs byte _) (buffer, total) = (
  ap (λ x. trim_buffer (x ++ (byte % 256 ∷ []))) buffer ∙ trim_buffer-window (byte % 256) out,
  omega (arith, total, length-append out (byte % 256 ∷ [])),
)
Step-Keeps h k bytes out c (subscribes sub _) keeps = rw (append-nil out) keeps
Step-Keeps h k bytes out c (unsubscribes sub _) keeps = rw (append-nil out) keeps
Step-Keeps h k bytes out c (writes sent _) keeps = rw (append-nil out) keeps

Steps-Keeps :
    (h k : ConsoleHub) (bytes out : List ℕ) (cs : List Change)
    → Steps h bytes cs k
    → Keeps h out
    → Keeps k (out ++ bytes)
Steps-Keeps h k bytes out cs (stay _) keeps = rw (append-nil out) keeps
Steps-Keeps h k bytes out cs (next _ l _ one more c more_cs first rest) keeps =
    rw⁻¹ (append_assoc out one more)
      (Steps-Keeps l k more (out ++ one) more_cs rest (Step-Keeps h l one out c first keeps))

-- What a read answers.
abbrev answer : List ℕ → ℕ → List ℕ × ℕ
answer bytes cursor = (bytes, cursor)

answer_eq : (xs ys : List ℕ) (m n : ℕ) → xs ≡ ys → m ≡ n → answer xs m ≡ answer ys n
answer_eq xs ys m n p q = ap (λ x. answer x m) p ∙ ap (answer ys) q

read_since-Keeps :
    (hub : ConsoleHub) (out : List ℕ) (cursor : ℕ)
    → Keeps hub out
    → read_since cursor hub ≡ (drop (max cursor (length out - max_console_buffer)) out, length out)
unfolding read_since
read_since-Keeps hub out cursor (buffer, total) =
    let d = length-drop (length out - max_console_buffer) out in
    let l : length hub.buffer ≡ length out - (length out - max_console_buffer) =
      ap length buffer ∙ d in
    let from : hub.total_bytes - length hub.buffer ≡ length out - max_console_buffer =
      omega (arith, l, total) in
    elim (Bool-cases (ltb (cursor - (hub.total_bytes - length hub.buffer)) (length hub.buffer))) [
      | inl h ↦
          let e : (cursor - (length out - max_console_buffer)) + (length out - max_console_buffer)
              ≡ max cursor (length out - max_console_buffer) =
            omega arith in
          rw h (
            answer_eq _ _ _ _
              (ap (λ x. drop (cursor - x) hub.buffer) from
                ∙ ap (drop (cursor - (length out - max_console_buffer))) buffer
                ∙ drop-drop (cursor - (length out - max_console_buffer))
                    (length out - max_console_buffer) out
                ∙ ap (λ n. drop n out) e)
              total)
      | inr h ↦ rw h (
          answer_eq _ _ _ _
            (sym (
              drop_all (max cursor (length out - max_console_buffer)) out
                (ground (arith, l, from))))
            total)
    ]

-- However subscriptions, input and output are interleaved on a new hub, readSince of any cursor
-- gives the bytes from the cursor on of all that the machine has put out, as far as they are
-- among the last 64 KB, and the number of bytes put out as the next cursor.
pub read_since-window :
    (hub : ConsoleHub) (out : List ℕ) (cs : List Change) (cursor : ℕ)
    → Steps new_hub out cs hub
    → read_since cursor hub ≡ (drop (max cursor (length out - max_console_buffer)) out, length out)
read_since-window hub out cs cursor made =
    read_since-Keeps hub out cursor (Steps-Keeps new_hub hub out [] cs made (refl, refl))

-- A reader that reads again from the cursor of its last read, after at most 64 KB of further
-- output, is given that output, each byte once.
pub read_since-again :
    (h k : ConsoleHub) (out more : List ℕ) (cs ds : List Change) (cursor : ℕ)
    → Steps new_hub out cs h
    → Steps h more ds k
    → length more ≤ max_console_buffer
    → read_since (read_since cursor h).1 k ≡ (more, length (out ++ more))
read_since-again h k out more cs ds cursor made later few =
    let first = read_since-window h out cs cursor made in
    let keeps =
      Steps-Keeps h k more out ds later (Steps-Keeps new_hub h out [] cs made (refl, refl)) in
    let second = read_since-Keeps k (out ++ more) (length out) keeps in
    let l = length-append out more in
    let e : max (length out) (length (out ++ more) - max_console_buffer) ≡ length out =
      omega (arith, l) in
    ap (λ r. read_since r.1 k) first
    ∙ second
    ∙ ap (λ n. answer (drop n (out ++ more)) (length (out ++ more))) e
    ∙ ap (λ x. answer x (length (out ++ more))) (drop-append_right (length out) out more refl)
