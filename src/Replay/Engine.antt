-- ===== src/Replay/Engine.antt =====
-- src/replay-engine.ts: `ReplayEngine`, which writes a converted file to the terminal port in
-- chunks.
use bitsby.Prelude.{
  ℕ, zero, suc, ◌+◌, ◌-◌, min, max, Bool, true, false, ◌&&◌, ◌||◌, not, Option, none, some, List,
  [], ◌∷◌, ◌++◌, ◌==◌, ltb, leb, length, get_or, subarray, if◌then◌else◌,
}
use bitsby.Replay.Lines.{raw, convert_line_endings}
use bitsby.Replay.Events.{
  ProgressState, running, completed, cancelled, error, ReplayProgress, Event, written, drained,
  delayed, emitted, ReplayOptions, Round, FileRead, contents, unreadable, returned, threw, Run,
}

-- 'Unknown error'
abbrev pub unknown_error : List ℕ
unknown_error =
    b'U' ∷ b'n' ∷ b'k' ∷ b'n' ∷ b'o' ∷ b'w' ∷ b'n' ∷ b' ' ∷ b'e' ∷ b'r' ∷ b'r' ∷ b'o' ∷ b'r' ∷ []

-- options.chunkSize || 1, between 1 and 16
abbrev pub chunk_size_of : Option ℕ → ℕ
chunk_size_of none = 1
chunk_size_of (some n) = min (max n 1) 16

abbrev pub or_else {ℓ} : {A : Type ℓ} → Option A → A → A
or_else none d = d
or_else (some x) d = x

-- The loop that looks for a line ending among the next bytes: the end of the chunk, and
-- `hitNewline`.
abbrev pub chunk_end : List ℕ → ℕ → ℕ → ℕ × Bool
chunk_end file i zero = (i, false)
chunk_end file i (suc left) = elim (get_or file i 0 == 0x0a) [
  | true ↦ (i + 1, true)
  | false ↦ elim (get_or file i 0 == 0x0d) [
    | true ↦ elim (ltb (i + 1) (length file) && (get_or file (i + 1) 0 == 0x0a)) [
      | true ↦ (i + 2, true)
      | false ↦ (i + 1, true)
    ]
    | false ↦ chunk_end file (i + 1) left
  ]
]

-- `none` is not printed: the fuel was used up.
abbrev pub before : List Event → Option Run → Option Run
before events none = none
before events (some r) = some (record r { events = events ++ r.events })

-- Math.round((bytesSent / totalBytes) * 100), and the delay Math.ceil(transmitMs) of a chunk by
-- its length (0 where transmitMs is at most 1), are parameters: floating point.
module _ (percent : ℕ → ℕ → ℕ) (pace : ℕ → ℕ) (rounds : ℕ → Round) (options : ReplayOptions) where
  abbrev pub progress : ProgressState → ℕ → ℕ → ℕ → Option (List ℕ) → ReplayProgress
  progress state sent total percent_complete message = record {
    state = state;
    bytes_sent = sent;
    total_bytes = total;
    percent_complete = percent_complete;
    file_name = options.file_name;
    message = message;
  }

  -- The catch block.
  abbrev pub fail : ℕ → ℕ → Bool → List ℕ → Run
  fail sent total flag e =
      let message = (if length e == 0 then unknown_error else e) in
      record {
        events =
            emitted (
              progress error sent total (if ltb 0 total then percent sent total else 0)
                (some message))
            ∷ [];
        sent = sent;
        flag = flag;
        outcome = threw e;
      }

  -- A delay of no milliseconds is left out.
  abbrev pub delay_if : ℕ → List Event
  delay_if zero = []
  delay_if (suc ms) = delayed (suc ms) ∷ []

  module _ (file : List ℕ) where
    abbrev pub total : ℕ
    total = length file

    abbrev pub inter_byte : ℕ
    inter_byte = or_else options.inter_byte_delay_ms 0

    abbrev pub inter_line : ℕ
    inter_line = or_else options.inter_line_delay_ms 200

    -- `currentPercent !== lastEmittedPercent || now - lastEmitTime >= 100`, with `none` for -1
    abbrev pub due : ℕ → Option ℕ → ℕ → ℕ → Bool
    due current none now last_time = true
    due current (some last) now last_time = not (current == last) || leb 100 (now - last_time)

    -- The end of a round: the progress, and the rounds that follow.
    abbrev pub emit_from : (ℕ → Option ℕ → ℕ → Option Run) → ℕ → ℕ → Option ℕ → ℕ → Option Run
    emit_from continue now sent last_percent last_time =
        let current = percent sent total in
        elim (due current last_percent now last_time) [
          | true ↦
              before (emitted (progress running sent total current none) ∷ [])
                (continue sent (some current) now)
          | false ↦ continue sent last_percent last_time
        ]

    -- After the write of a chunk that ended at a line ending, and after any other.
    abbrev pub pause_from : (ℕ → Option Run) → Bool → Round → Bool → ℕ → ℕ → Option Run
    pause_from continue true round flag sent written_length = elim (round.drain_error) [
      | some e ↦ some (fail sent total flag e)
      | none ↦
          before (drained (max inter_line 100) ∷ delay_if (inter_line - round.drain_elapsed))
            (continue sent)
    ]
    pause_from continue false round flag sent written_length =
        before (if inter_byte == 0 then delay_if (pace written_length) else []) (continue sent)

    abbrev pub write_from :
        (ℕ → Option ℕ → ℕ → Option Run) → Round → Bool → ℕ → Option ℕ → ℕ → ℕ × Bool → Option Run
    write_from continue round flag offset last_percent last_time (end, hit_newline) =
        elim (round.write_error) [
          | some e ↦ some (fail offset total flag e)
          | none ↦ before (written (subarray file offset end) ∷ delay_if inter_byte) (
              pause_from (λ sent. emit_from continue round.now sent last_percent last_time)
                hit_newline round flag end (end - offset))
        ]

    abbrev pub look_from : ℕ → ℕ × Bool
    look_from offset =
        chunk_end file offset (min (offset + chunk_size_of options.chunk_size) total - offset)

    -- The loop from round `k` on, for `fuel` rounds.
    abbrev pub run_from : ℕ → ℕ → ℕ → Option ℕ → ℕ → Option Run
    run_from zero k offset last_percent last_time = none
    run_from (suc fuel) k offset last_percent last_time = elim (ltb offset total) [
      | false ↦ some (record {
        events = emitted (progress completed total total 100 none) ∷ [];
        sent = offset;
        flag = (rounds k).cancels;
        outcome = returned;
      })
      | true ↦ elim ((rounds k).cancels) [
        | true ↦ some (record {
          events = emitted (progress cancelled offset total (percent offset total) none) ∷ [];
          sent = offset;
          flag = true;
          outcome = returned;
        })
        | false ↦
            write_from (run_from fuel (suc k)) (rounds k) ((rounds (suc k)).cancels) offset
              last_percent last_time (look_from offset)
      ]
    ]

  -- The try block on the bytes to send, with the clock at its start. The fuel is one more than
  -- the bytes: every round sends at least one.
  unfoldable pub run_file : ℕ → List ℕ → Option Run
  run_file start file = elim (length file == 0) [
    | true ↦ some (record {
      events = emitted (progress completed 0 0 100 none) ∷ [];
      sent = 0;
      flag = (rounds 0).cancels;
      outcome = returned;
    })
    | false ↦ run_from file (suc (length file)) 0 0 none start
  ]

  abbrev pub run_read : ℕ → FileRead → Option Run
  run_read start (unreadable e) = some (fail 0 0 ((rounds 0).cancels) e)
  run_read start (contents raw_buffer) =
      run_file start (convert_line_endings (or_else options.line_ending raw) raw_buffer)

pub record ReplayEngine : Type 0 where
  pub running : Bool
  pub cancelled : Bool
  pub last_progress : Option ReplayProgress

pub data Reply : Type 0 where
  already_in_progress not_open no_fuel : Reply
  ran : Run → Reply

-- `lastProgress` after some events.
abbrev pub last_emitted : Option ReplayProgress → List Event → Option ReplayProgress
last_emitted last [] = last
last_emitted last (emitted progress ∷ events) = last_emitted (some progress) events
last_emitted last (written bytes ∷ events) = last_emitted last events
last_emitted last (drained ms ∷ events) = last_emitted last events
last_emitted last (delayed ms ∷ events) = last_emitted last events

abbrev pub after_run : ReplayEngine → Option Run → Reply × ReplayEngine
after_run engine none = (no_fuel, engine)
after_run engine (some r) = (
  ran r,
  record {
    running = false;
    cancelled = r.flag;
    last_progress = last_emitted engine.last_progress r.events;
  },
)

unfoldable pub replay :
    (ℕ → ℕ → ℕ)
    → (ℕ → ℕ)
    → (ℕ → Round)
    → ReplayOptions
    → Bool
    → ℕ
    → FileRead
    → ReplayEngine
    → Reply × ReplayEngine
unfolding run_file convert_line_endings
replay percent pace rounds options is_open start file engine =
    if engine.running
    then (already_in_progress, engine)
    else if not is_open
    then (not_open, engine)
    else after_run engine (run_read percent pace rounds options start file)

unfoldable pub cancel : ReplayEngine → ReplayEngine
cancel engine = if engine.running then record engine { cancelled = true } else engine
