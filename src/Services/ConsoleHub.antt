-- ===== src/Services/ConsoleHub.antt =====
-- src/services/console-hub.ts: `ConsoleHub`, which keeps the recent output of a machine's console
-- and hands each byte to the subscribers, and `ConsoleWaitAdapter`. A subscriber and a listener are
-- numbers; what the subscribers were handed and what the source was sent are lists.
use bitsby.Prelude.{
  member, ℕ, suc, ◌+◌, ◌-◌, ◌*◌, ◌%◌, Bool, true, false, List, [], ◌∷◌, ◌++◌, ◌==◌, ltb, length,
  drop, Option, none, some, if◌then◌else◌, map,
}
pub mod Window
pub mod Fanout
pub mod Tests

abbrev pub max_console_buffer : ℕ
max_console_buffer = 64 * 1024

-- A byte handed to a subscriber, which may throw.
pub record Delivery : Type 0 where
  pub subscriber : ℕ
  pub byte : ℕ

pub record ConsoleHub : Type 0 where
  pub subscribers : List ℕ
  pub buffer : List ℕ
  pub total_bytes : ℕ
  pub delivered : List Delivery
  pub sent : List ℕ

abbrev pub new_hub : ConsoleHub
new_hub = record { subscribers = []; buffer = []; total_bytes = 0; delivered = []; sent = [] }

-- this.buffer.slice(this.buffer.length - MAX_CONSOLE_BUFFER) where it is longer
abbrev pub trim_buffer : List ℕ → List ℕ
trim_buffer buffer =
    if ltb max_console_buffer (length buffer)
    then drop (length buffer - max_console_buffer) buffer
    else buffer

-- The loop over the subscribers: an exception of one is caught, so that the next has its turn.
abbrev pub deliver : ℕ → List ℕ → List Delivery
deliver b [] = []
deliver b (sub ∷ subs) = record { subscriber = sub; byte = b } ∷ deliver b subs

-- The handler that the constructor registers with the source.
unfoldable pub on_output : ℕ → ConsoleHub → ConsoleHub
on_output byte hub =
    let b = byte % 256 in
    record hub {
      buffer = trim_buffer (hub.buffer ++ (b ∷ []));
      total_bytes = hub.total_bytes + 1;
      delivered = hub.delivered ++ deliver b hub.subscribers;
    }

-- readSince(cursor): the bytes and the next cursor.
unfoldable pub read_since : ℕ → ConsoleHub → List ℕ × ℕ
read_since cursor hub =
    let buffer_start = hub.total_bytes - length hub.buffer in
    let from = cursor - buffer_start in
    (if ltb from (length hub.buffer) then drop from hub.buffer else [], hub.total_bytes)

abbrev pub remove : ℕ → List ℕ → List ℕ
remove x [] = []
remove x (y ∷ ys) = let rest = remove x ys in if x == y then rest else y ∷ rest

unfoldable pub subscribe : ℕ → ConsoleHub → ConsoleHub
subscribe sub hub = record hub {
  subscribers =
      if member sub hub.subscribers then hub.subscribers else hub.subscribers ++ (sub ∷ []);
}

-- The function that `subscribe` returns.
unfoldable pub unsubscribe : ℕ → ConsoleHub → ConsoleHub
unsubscribe sub hub = record hub { subscribers = remove sub hub.subscribers }

-- write(data) with bytes; a text is encoded by TextEncoder before.
unfoldable pub write : List ℕ → ConsoleHub → ConsoleHub
write data_bytes hub = record hub { sent = hub.sent ++ map (λ b. b % 256) data_bytes }

unfoldable pub subscriber_count : ConsoleHub → ℕ
subscriber_count hub = length hub.subscribers

-- A listener with the subscription that was made for it.
pub record Listener : Type 0 where
  pub listener : ℕ
  pub subscription : ℕ

-- `ConsoleWaitAdapter`: its cursor, and `unsubs`.
pub record ConsoleWaitAdapter : Type 0 where
  pub cursor : ℕ
  pub unsubs : List Listener

unfoldable pub new_adapter : ConsoleHub → ConsoleWaitAdapter
unfolding read_since
new_adapter hub = record { cursor = (read_since 0 hub).1; unsubs = [] }

-- this.unsubs.get(fn)
abbrev pub subscription_of : ℕ → List Listener → Option ℕ
subscription_of fn [] = none
subscription_of fn (l ∷ unsubs) =
    if fn == l.listener then some l.subscription else subscription_of fn unsubs

-- this.unsubs.delete(fn)
abbrev pub forget : ℕ → List Listener → List Listener
forget fn [] = []
forget fn (l ∷ unsubs) = let rest = forget fn unsubs in if fn == l.listener then rest else l ∷ rest

abbrev pub add_listener :
    ℕ → ℕ → ConsoleWaitAdapter → ConsoleHub → Option ℕ → ConsoleWaitAdapter × ConsoleHub
unfolding subscribe
add_listener fn sub adapter hub none = (
  record adapter { unsubs = adapter.unsubs ++ (record { listener = fn; subscription = sub } ∷ []) },
  subscribe sub hub,
)
add_listener fn sub adapter hub (some known) = (adapter, hub)

-- addMcpDataListener, with `sub` the subscriber object that it makes.
unfoldable pub add_mcp_data_listener :
    ℕ → ℕ → ConsoleWaitAdapter → ConsoleHub → ConsoleWaitAdapter × ConsoleHub
unfolding subscribe
add_mcp_data_listener fn sub adapter hub =
    add_listener fn sub adapter hub (subscription_of fn adapter.unsubs)

abbrev pub unsubscribe_from : Option ℕ → ConsoleHub → ConsoleHub
unfolding unsubscribe
unsubscribe_from none hub = hub
unsubscribe_from (some sub) hub = unsubscribe sub hub

unfoldable pub remove_mcp_data_listener :
    ℕ → ConsoleWaitAdapter → ConsoleHub → ConsoleWaitAdapter × ConsoleHub
unfolding unsubscribe
remove_mcp_data_listener fn adapter hub = (
  record adapter { unsubs = forget fn adapter.unsubs },
  unsubscribe_from (subscription_of fn adapter.unsubs) hub,
)

unfoldable pub read_mcp_buffer : ConsoleWaitAdapter → ConsoleHub → List ℕ
unfolding read_since
read_mcp_buffer adapter hub = (read_since adapter.cursor hub).0

unfoldable pub clear_mcp_buffer : ConsoleWaitAdapter → ConsoleHub → ConsoleWaitAdapter
unfolding read_since
clear_mcp_buffer adapter hub = record adapter { cursor = (read_since 0 hub).1 }

abbrev pub unsubscribe_all : List Listener → ConsoleHub → ConsoleHub
unfolding unsubscribe
unsubscribe_all [] hub = hub
unsubscribe_all (l ∷ unsubs) hub = unsubscribe_all unsubs (unsubscribe l.subscription hub)

unfoldable pub dispose : ConsoleWaitAdapter → ConsoleHub → ConsoleWaitAdapter × ConsoleHub
unfolding unsubscribe
dispose adapter hub = (record adapter { unsubs = [] }, unsubscribe_all adapter.unsubs hub)

-- What an operation changes in the set of subscribers.
pub data Change : Type 0 where
  joined : ℕ → Change
  left : ℕ → Change
  same : Change

-- One operation of the hub, with the bytes that the machine puts out in it.
pub data Step : ConsoleHub → List ℕ → Change → ConsoleHub → Type 0 where
  outputs : (byte : ℕ) (h : ConsoleHub) → Step h (byte % 256 ∷ []) same (on_output byte h)
  subscribes : (sub : ℕ) (h : ConsoleHub) → Step h [] (joined sub) (subscribe sub h)
  unsubscribes : (sub : ℕ) (h : ConsoleHub) → Step h [] (left sub) (unsubscribe sub h)
  writes : (bytes : List ℕ) (h : ConsoleHub) → Step h [] same (write bytes h)

-- Any number of operations, with the machine's output.
pub data Steps : ConsoleHub → List ℕ → List Change → ConsoleHub → Type 0 where
  stay : (h : ConsoleHub) → Steps h [] [] h
  next :
      (h k l : ConsoleHub) (out more : List ℕ) (c : Change) (cs : List Change)
      → Step h out c k
      → Steps k more cs l
      → Steps h (out ++ more) (c ∷ cs) l
