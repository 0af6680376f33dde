-- ===== src/Replay/Delivered.antt =====
-- src/replay-engine.ts: `replay` from the options to the state it leaves.
use bitsby.Prelude.{
  ℕ, suc, ◌≡◌, ◌≤◌, refl, ap, ◌∙◌, inl, inr, true, false, Option, none, some, List, ◌==◌, length,
  take, Bool-cases, arith,
}
use bitsby.Replay.Lines.{raw, convert_line_endings}
use bitsby.Replay.Events.{ReplayProgress, ReplayOptions, Round, returned, Run, contents}
use bitsby.Replay.Engine.{or_else, run_file, ReplayEngine, Reply, ran, after_run, replay}
use bitsby.Replay.Sending.{run_from-Sends}
use bitsby.Replay.Sent.{bytes_written, Closes, Quiet, Sends, last_emitted-any}

module _ (percent : ℕ → ℕ → ℕ) (pace : ℕ → ℕ) (rounds : ℕ → Round) (options : ReplayOptions) where
  run_file-Sends :
      (start : ℕ) (file : List ℕ)
      → Sends rounds file 0 (run_file percent pace rounds options start file)
  unfolding run_file
  run_file-Sends start file = elim (Bool-cases (length file == 0)) [
    | inl h ↦
        let empty : 0 ≡ length file = ground arith in
        rw (run_file, h)
          (
            _,
            refl,
            (refl, omega arith, (_, refl, (refl, inl (refl, empty, refl))), λ quiet. (empty, refl)),
          )
    | inr h ↦
        rw (run_file, h)
          (run_from-Sends percent pace rounds options file (suc (length file)) 0 0 none start
            (omega arith) (omega arith))
  ]

-- What `replay` leaves of a run: the reply, the state, and the last announcement.
abbrev pub Replayed : (ℕ → Round) → List ℕ → Reply × ReplayEngine → Type 0
Replayed rounds file result =
    (r : Run) × (p : ReplayProgress) × (result
      ≡ (ran r, record { running = false; cancelled = r.flag; last_progress = some p }))
    × (bytes_written r.events ≡ take r.sent file)
    × (r.sent ≤ length file)
    × Closes file r p
    × (Quiet rounds → (r.sent ≡ length file) × (r.outcome ≡ returned))

after_run-Replayed :
    (rounds : ℕ → Round) (file : List ℕ) (engine : ReplayEngine) (o : Option Run)
    → Sends rounds file 0 o
    → Replayed rounds file (after_run engine o)
after_run-Replayed rounds file engine o (r, at, (bytes, within, (p, last, closes), whole)) = (
  r,
  p,
  ap (after_run engine) at
      ∙ ap (λ l. (ran r, record { running = false; cancelled = r.flag; last_progress = l }))
          (last_emitted-any engine.last_progress r.events p last),
  bytes,
  within,
  closes,
  whole,
)

-- Where no replay is running and the port is open, `replay` of a readable file always comes to an
-- end (each round sends at least one byte): what it wrote to the port, chunk after chunk, is the
-- first `sent` bytes of the converted file; `running` is reset; `lastProgress` has that number of
-- bytes and the state `completed` with all sent, `cancelled` with some left and the flag set, or
-- `error` with the exception thrown on; without a cancel and an error of the port, the whole file
-- is sent and `replay` returns.
pub replay-sent :
    (percent : ℕ → ℕ → ℕ) (pace : ℕ → ℕ) (rounds : ℕ → Round) (options : ReplayOptions) (start : ℕ)
    (buffer : List ℕ) (engine : ReplayEngine)
    → engine.running ≡ false
    → Replayed rounds
        (convert_line_endings (or_else options.line_ending raw) buffer)
        (replay percent pace rounds options true start (contents buffer) engine)
unfolding replay
replay-sent percent pace rounds options start buffer engine idle =
    let file = convert_line_endings (or_else options.line_ending raw) buffer in
    simp (replay, idle)
      (after_run-Replayed rounds file engine (run_file percent pace rounds options start file)
        (run_file-Sends percent pace rounds options start file))
