-- ===== src/Replay/Events.antt =====
-- src/replay-engine.ts: the options, the announcements and the surroundings of a replay. What it
-- wrote, waited for and announced is a list of events, in the order of the source.
use bitsby.Prelude.{ℕ, Bool, Option, List}
use bitsby.Replay.Lines.{LineEnding}

pub data ProgressState : Type 0 where
  running completed cancelled error : ProgressState

pub record ReplayProgress : Type 0 where
  pub state : ProgressState
  pub bytes_sent : ℕ
  pub total_bytes : ℕ
  pub percent_complete : ℕ
  pub file_name : List ℕ
  pub message : Option (List ℕ)

-- terminalManager.write(chunk, false), terminalManager.drain(timeout), delay(ms), emitProgress
pub data Event : Type 0 where
  written : List ℕ → Event
  drained : ℕ → Event
  delayed : ℕ → Event
  emitted : ReplayProgress → Event

pub record ReplayOptions : Type 0 where
  pub file_name : List ℕ
  pub chunk_size : Option ℕ
  pub inter_byte_delay_ms : Option ℕ
  pub inter_line_delay_ms : Option ℕ
  pub line_ending : Option LineEnding

-- What happens around one round of the loop: whether `cancel` is called between the check of the
-- round before and this one's, the errors that the round's write and drain end with, the time
-- that the drain takes, and the clock when the progress is looked at.
pub record Round : Type 0 where
  pub cancels : Bool
  pub write_error : Option (List ℕ)
  pub drain_error : Option (List ℕ)
  pub drain_elapsed : ℕ
  pub now : ℕ

pub data Outcome : Type 0 where
  returned : Outcome
  threw : List ℕ → Outcome

-- fs.readFile(options.filePath)
pub data FileRead : Type 0 where
  contents : List ℕ → FileRead
  unreadable : List ℕ → FileRead

-- A call of `replay` from the loop on: its events, the bytes sent and the flag `cancelled` at the
-- end, and whether it threw.
pub record Run : Type 0 where
  pub events : List Event
  pub sent : ℕ
  pub flag : Bool
  pub outcome : Outcome
