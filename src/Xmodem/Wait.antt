-- ===== src/Xmodem/Wait.antt =====
-- src/xmodem-sender.ts: the state of an `XmodemSender`, what arrives while it runs, and
-- `handleIncomingData`, `waitForByte` and `cancel`.
use bitsby.Prelude.{
  ℕ, Bool, true, false, ◌||◌, Option, none, some, List, [], ◌∷◌, ◌++◌, map, ◌==◌, if◌then◌else◌,
}

-- What happens outside the sender: bytes come in, a timer runs out, the operator cancels, a write
-- to the port ends or fails.
pub data Event : Type 0 where
  received : List ℕ → Event
  elapsed : Event
  cancelled : Event
  written : Event
  write_failed : Event

-- An entry of `dataResolvers`: a handler that waits for one of some bytes, or one whose promise
-- is settled already (`resolved`), which takes a byte and does nothing.
pub data Waiter : Type 0 where
  live : List ℕ → Waiter
  settled : Waiter

pub data TransferState : Type 0 where
  running completed cancelled error : TransferState

-- `ReplayProgress` without the name of the file, the rounded percentage and the error's text.
pub record Progress : Type 0 where
  pub state : TransferState
  pub bytes_sent : ℕ
  pub total_bytes : ℕ

pub record Sender : Type 0 where
  pub is_cancelled : Bool
  pub is_running : Bool
  pub incoming_buffer : List ℕ
  pub data_resolvers : List Waiter
  pub output : List (List ℕ)
  pub progress : List Progress

abbrev pub includes : List ℕ → ℕ → Bool
includes [] b = false
includes (x ∷ xs) b = x == b || includes xs b

-- What the loop of `handleIncomingData` leaves, and the byte that the live handler took.
pub record Pumped : Type 0 where
  pub taken : Option ℕ
  pub buffer : List ℕ
  pub resolvers : List Waiter

-- while (buffer and resolvers are not empty) hand the next byte to the next resolver
unfoldable pub pump : List ℕ → List Waiter → Pumped
pump [] ws = record { taken = none; buffer = []; resolvers = ws }
pump (b ∷ bs) [] = record { taken = none; buffer = b ∷ bs; resolvers = [] }
pump (b ∷ bs) (settled ∷ ws) = pump bs ws
pump (b ∷ bs) (live expected ∷ ws) = elim (includes expected b) [
  | true ↦ record (pump bs ws) { taken = some b }
  | false ↦ pump bs (ws ++ (live expected ∷ []))
]

unfoldable pub handle_incoming_data : List ℕ → Sender → Option ℕ × Sender
unfolding pump
handle_incoming_data bytes s =
    let p = pump (s.incoming_buffer ++ bytes) s.data_resolvers in
    (p.taken, record s { incoming_buffer = p.buffer; data_resolvers = p.resolvers })

-- `cancel`, while a transfer runs: the handlers are called with -1 and dropped.
unfoldable pub cancel : Sender → Sender
cancel s = if s.is_running then record s { is_cancelled = true; data_resolvers = [] } else s

-- How a wait ends; `pending` says that the events ran out first.
pub data Wait : Type 0 where
  got : ℕ → Wait
  timed_out : Wait
  was_cancelled : Wait
  pending : Wait

-- Where a run stands: the sender and the events that are still to come.
pub record Run : Type 0 where
  pub sender : Sender
  pub events : List Event

-- The first expected byte of the buffer, and the buffer behind it.
unfoldable pub try_resolve : List ℕ → List ℕ → Option (ℕ × List ℕ)
try_resolve expected [] = none
try_resolve expected (b ∷ bs) = elim (includes expected b) [
  | true ↦ some (b, bs)
  | false ↦ try_resolve expected bs
]

-- The timer settles the handler and leaves it in `dataResolvers`.
abbrev pub settle : Waiter → Waiter
settle w = settled

abbrev pub deliver : (Sender → Wait × Run) → List Event → Option ℕ × Sender → Wait × Run
deliver wait es (some b, s) = (got b, record { sender = s; events = es })
deliver wait es (none, s) = wait s

-- The promise of `waitForByte`, from the registration of its handler on.
unfoldable pub await_byte : List Event → Sender → Wait × Run
unfolding handle_incoming_data cancel
await_byte [] s = (pending, record { sender = s; events = [] })
await_byte (received bytes ∷ es) s = deliver (await_byte es) es (handle_incoming_data bytes s)
await_byte (elapsed ∷ es) s = (
  timed_out,
  record { sender = record s { data_resolvers = map settle s.data_resolvers }; events = es },
)
await_byte (Event.cancelled ∷ es) s = (was_cancelled, record { sender = cancel s; events = es })
await_byte (written ∷ es) s = await_byte es s
await_byte (write_failed ∷ es) s = await_byte es s

abbrev pub resume : List ℕ → Run → Option (ℕ × List ℕ) → Wait × Run
resume expected r (some (b, rest)) =
    (got b, record r { sender = record r.sender { incoming_buffer = rest } })
resume expected r none =
    await_byte r.events
      (record r.sender { data_resolvers = r.sender.data_resolvers ++ (live expected ∷ []) })

unfoldable pub wait_for_byte : List ℕ → Run → Wait × Run
unfolding try_resolve await_byte
wait_for_byte expected r = resume expected r (try_resolve expected r.sender.incoming_buffer)
