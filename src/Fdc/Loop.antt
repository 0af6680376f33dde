-- ===== src/Fdc/Loop.antt =====
-- src/server.ts: the command loop of `FdcServer` and the calls that steer it. The texts of the
-- debug output and the lengths of the pauses are left out.
pub mod Served
use bitsby.Prelude.{Bool, true, false, not, List, [], ◌∷◌, if◌then◌else◌}
use bitsby.Fdc.Server.{DriveEngine, Line, serve_command}

pub record FdcServer : Type 0 where
  pub verbose : Bool
  pub running : Bool
  pub paused : Bool
  pub serial_unavailable_notified : Bool

abbrev pub new_server : Bool → FdcServer
new_server verbose = record {
  verbose = verbose;
  running = false;
  paused = false;
  serial_unavailable_notified = false;
}

abbrev pub stop : FdcServer → FdcServer
stop s = record s { running = false }

abbrev pub toggle_verbose : FdcServer → FdcServer
toggle_verbose s = record s { verbose = not s.verbose }

abbrev pub pause : FdcServer → FdcServer
pause s = record s { paused = true }

abbrev pub resume : FdcServer → FdcServer
resume s = record s { paused = false }

-- A call of one of these.
pub data Control : Type 0 where
  stops pauses resumes toggles : Control

abbrev pub call : Control → FdcServer → FdcServer
call stops s = stop s
call pauses s = pause s
call resumes s = resume s
call toggles s = toggle_verbose s

abbrev pub call_all : List Control → FdcServer → FdcServer
call_all [] s = s
call_all (c ∷ cs) s = call_all cs (call c s)

-- What happens outside in one round of the loop: whether the port is open as it begins, and the
-- calls that are made while it waits.
pub record Round : Type 0 where
  pub is_open : Bool
  pub calls : List Control

module _ {S : Type 0} (engine : DriveEngine S) where
  -- The loop's body, by `paused` and `isOpen()`; its `catch` keeps every error in the round.
  abbrev pub serve_round : Bool → Bool → FdcServer → Line S → FdcServer × Line S
  serve_round true open_port s l = (s, l)
  serve_round false false s l = (record s { serial_unavailable_notified = true }, l)
  serve_round false true s l =
      (record s { serial_unavailable_notified = false }, serve_command engine l)

  -- The `while`, with the rounds to come: whether it has ended, and what it leaves.
  unfoldable pub command_loop : List Round → FdcServer → Line S → Bool × (FdcServer × Line S)
  unfolding serve_command
  command_loop [] s l = (not s.running, (s, l))
  command_loop (r ∷ rs) s l =
      let served = serve_round s.paused r.is_open s l in
      let rest = command_loop rs (call_all r.calls served.0) served.1 in
      if s.running then rest else (true, (s, l))

  unfoldable pub start : List Round → FdcServer → Line S → Bool × (FdcServer × Line S)
  unfolding command_loop
  start rounds s l = command_loop rounds (record s { running = true }) l
