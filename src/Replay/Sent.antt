-- ===== src/Replay/Sent.antt =====
-- src/replay-engine.ts: what a replay sends and how it ends.
use mathlib.Core.List.{append_assoc}
use mathlib.Core.Option.{none-ne-some}
use bitsby.Prelude.{
  ℕ, zero, suc, ◌+◌, ◌-◌, ◌≤◌, ◌<◌, min, ◌≡◌, refl, sym, ap, ◌⊎◌, inl, inr, true, false, ◌&&◌,
  Option, none, some, List, [], ◌∷◌, ◌++◌, ◌==◌, ltb, length, get_or, take, subarray, Bool-cases,
  arith,
}
use bitsby.Replay.Events.{
  completed, cancelled, error, ReplayProgress, Event, written, drained, delayed, emitted, Round,
  returned, threw, Run,
}
use bitsby.Replay.Engine.{chunk_size_of, chunk_end, last_emitted}

-- The bytes that some events wrote.
abbrev pub bytes_written : List Event → List ℕ
bytes_written [] = []
bytes_written (written bytes ∷ events) = bytes ++ bytes_written events
bytes_written (drained ms ∷ events) = bytes_written events
bytes_written (delayed ms ∷ events) = bytes_written events
bytes_written (emitted p ∷ events) = bytes_written events

pub bytes_written-append :
    (xs ys : List Event) → bytes_written (xs ++ ys) ≡ bytes_written xs ++ bytes_written ys
bytes_written-append [] ys = refl
bytes_written-append (written bytes ∷ xs) ys =
    rw (bytes_written-append xs ys) (sym (append_assoc bytes (bytes_written xs) (bytes_written ys)))
bytes_written-append (drained ms ∷ xs) ys = bytes_written-append xs ys
bytes_written-append (delayed ms ∷ xs) ys = bytes_written-append xs ys
bytes_written-append (emitted p ∷ xs) ys = bytes_written-append xs ys

pub last_emitted-append :
    (last : Option ReplayProgress) (xs ys : List Event)
    → last_emitted last (xs ++ ys) ≡ last_emitted (last_emitted last xs) ys
last_emitted-append last [] ys = refl
last_emitted-append last (written bytes ∷ xs) ys = last_emitted-append last xs ys
last_emitted-append last (drained ms ∷ xs) ys = last_emitted-append last xs ys
last_emitted-append last (delayed ms ∷ xs) ys = last_emitted-append last xs ys
last_emitted-append last (emitted p ∷ xs) ys = last_emitted-append (some p) xs ys

-- A chunk ends after it began and within the file.
pub chunk_end-bounds :
    (file : List ℕ) (i left : ℕ)
    → i + left ≤ length file
    → (i + min left 1 ≤ (chunk_end file i left).0) × ((chunk_end file i left).0 ≤ length file)
chunk_end-bounds file i zero h = (omega arith, omega arith)
chunk_end-bounds file i (suc left) h = elim (Bool-cases (get_or file i 0 == 0x0a)) [
  | inl a ↦ rw (chunk_end, a) (omega arith, omega arith)
  | inr a ↦ elim (Bool-cases (get_or file i 0 == 0x0d)) [
    | inl b ↦ elim (Bool-cases (ltb (i + 1) (length file) && (get_or file (i + 1) 0 == 0x0a))) [
      | inl c ↦ rw (chunk_end, a, b, c) (omega arith, ground arith)
      | inr c ↦ rw (chunk_end, a, b, c) (omega arith, omega arith)
    ]
    | inr b ↦
        let ih = chunk_end-bounds file (i + 1) left (omega arith) in
        rw (chunk_end, a, b) (omega (arith, ih.0), ih.1)
  ]
]

take-nil : (n : ℕ) → take {A = ℕ} n [] ≡ []
take-nil zero = refl
take-nil (suc n) = refl

pub chunk_size-positive : (size : Option ℕ) → 1 ≤ chunk_size_of size
chunk_size-positive none = omega arith
chunk_size-positive (some n) = omega arith

-- What was sent before a chunk, and the chunk.
pub take-subarray : (xs : List ℕ) (i j : ℕ) → i ≤ j → take i xs ++ subarray xs i j ≡ take j xs
take-subarray [] zero zero h = refl
take-subarray [] zero (suc j) h = take-nil (suc j - 0)
take-subarray [] (suc i) (suc j) h = take-nil (suc j - suc i)
take-subarray [] (suc i) zero h = absurd (omega arith)
take-subarray (x ∷ xs) zero j h = let e : j - 0 ≡ j = omega arith in rw e refl
take-subarray (x ∷ xs) (suc i) zero h = absurd (omega arith)
take-subarray (x ∷ xs) (suc i) (suc j) h =
    let e : suc j - suc i ≡ j - i = omega arith in
    rw e (ap (λ r. x ∷ r) (take-subarray xs i j (omega arith)))

-- The last announcement tells how many bytes were sent, and it is `completed` with the whole file
-- sent, `cancelled` after a call of `cancel`, or `error` with the exception thrown on.
abbrev pub Closes : List ℕ → Run → ReplayProgress → Type 0
Closes file r p =
    (p.bytes_sent ≡ r.sent)
    × (((p.state ≡ completed) × (r.sent ≡ length file) × (r.outcome ≡ returned))
        ⊎ ((p.state ≡ cancelled)
            × (r.sent < length file)
            × (r.flag ≡ true)
            × (r.outcome ≡ returned))
        ⊎ ((p.state ≡ error) × ((e : List ℕ) × (r.outcome ≡ threw e))))

-- No cancel, and no error of the port.
abbrev pub Quiet : (ℕ → Round) → Type 0
Quiet rounds =
    (k : ℕ)
    → ((rounds k).cancels ≡ false)
      × ((rounds k).write_error ≡ none)
      × ((rounds k).drain_error ≡ none)

-- A run from an offset on: the bytes up to the offset and those that its events wrote are the
-- first `sent` bytes of the file, the last event announces how it closed, and undisturbed it
-- sends the whole file.
abbrev pub SentFrom : (ℕ → Round) → List ℕ → ℕ → Run → Type 0
SentFrom rounds file offset r =
    (take offset file ++ bytes_written r.events ≡ take r.sent file)
    × (r.sent ≤ length file)
    × ((p : ReplayProgress) × (last_emitted none r.events ≡ some p) × Closes file r p)
    × (Quiet rounds → (r.sent ≡ length file) × (r.outcome ≡ returned))

abbrev pub Sends : (ℕ → Round) → List ℕ → ℕ → Option Run → Type 0
Sends rounds file offset o = (r : Run) × (o ≡ some r) × SentFrom rounds file offset r

pub last_emitted-any :
    (last : Option ReplayProgress) (events : List Event) (p : ReplayProgress)
    → last_emitted none events ≡ some p
    → last_emitted last events ≡ some p
last_emitted-any last [] p h = absurd (none-ne-some p h)
last_emitted-any last (written bytes ∷ events) p h = last_emitted-any last events p h
last_emitted-any last (drained ms ∷ events) p h = last_emitted-any last events p h
last_emitted-any last (delayed ms ∷ events) p h = last_emitted-any last events p h
last_emitted-any last (emitted q ∷ events) p h = h
