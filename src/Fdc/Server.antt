-- ===== src/Fdc/Server.antt =====
-- src/server.ts, src/drive-engine.ts: the commands of `FdcServer`, over any `IDriveEngine` and any
-- outcomes of the transport.
pub mod Status
pub mod Write
use Prim.Native.Nat.{bit_or}
use bitsby.Prelude.{
  ℕ, zero, suc, ◌+◌, ◌*◌, ◌/◌, ◌%◌, ◌^◌, Bool, true, false, not, ◌&&◌, Option, none, some, List, [],
  ◌∷◌, ◌++◌, ltb, ◌==◌, if◌then◌else◌,
}
use bitsby.Fdc.Protocol.{
  CommandResponseBlock, FdcError, fdc_ok, not_ready, error_code, FdcCommand, stat, read, writ,
  to_buffer, from_buffer, get_command, wsta_text, lsb, msb, max_drives,
}

-- `IDriveEngine`, on its state. The server changes two fields of the object that `getDriveState`
-- gives, `hdld` and `track`; a change of a drive that has no such object does nothing.
pub record DriveEngine (S : Type 0) : Type 0 where
  pub fdc_errno : S → FdcError
  pub set_hdld : ℕ → Bool → S → S
  pub set_track : ℕ → ℕ → S → S
  pub is_mounted : S → ℕ → Bool
  pub is_in_swap_window : S → ℕ → Bool
  pub read_track : ℕ → ℕ → ℕ → S → Option (List ℕ) × S
  pub can_write : ℕ → S → Bool × S
  pub write_track : ℕ → ℕ → ℕ → List ℕ → S → Bool × S

-- The engine's state, what was sent, and what the next calls of the transport will do: whether a
-- send succeeds, and what a receive gives (`none` is a timeout). A list that has run out stands
-- for sends that succeed and receives that time out.
pub record Line (S : Type 0) : Type 0 where
  pub engine : S
  pub sent : List (List ℕ)
  pub sends : List Bool
  pub receives : List (Option (List ℕ))

-- What a step did: it returned, or it threw.
pub data Outcome : Type 0 where
  returned threw : Outcome

abbrev pub outcome : Bool → Outcome
outcome true = returned
outcome false = threw

abbrev pub next_send : List Bool → Bool × List Bool
next_send [] = (true, [])
next_send (ok ∷ oks) = (ok, oks)

abbrev pub next_receive : List (Option (List ℕ)) → Option (List ℕ) × List (Option (List ℕ))
next_receive [] = (none, [])
next_receive (r ∷ rs) = (r, rs)

abbrev pub logged : Bool → List ℕ → List (List ℕ) → List (List ℕ)
logged true bytes log = log ++ (bytes ∷ [])
logged false bytes log = log

module _ {S : Type 0} where
  -- transport.sendBuffer
  abbrev pub send_buffer : List ℕ → Line S → Outcome × Line S
  send_buffer bytes l =
      let n = next_send l.sends in
      (outcome n.0, record l { sent = logged n.0 bytes l.sent; sends = n.1 })

  -- transport.receiveBuffer
  abbrev pub receive_buffer : Line S → Option (List ℕ) × Line S
  receive_buffer l = let n = next_receive l.receives in (n.0, record l { receives = n.1 })

  abbrev pub send_write_response : CommandResponseBlock → FdcError → Line S → Outcome × Line S
  send_write_response cmd response l =
      send_buffer (to_buffer (record cmd { param1 = error_code response })) l

  -- The `catch` around a step.
  abbrev pub recover : (Line S → Outcome × Line S) → Outcome × Line S → Outcome × Line S
  recover handler (returned, l) = (returned, l)
  recover handler (threw, l) = handler l

  -- A step after one that may have thrown.
  abbrev pub and_then : (Line S → Outcome × Line S) → Outcome × Line S → Outcome × Line S
  and_then next (returned, l) = next l
  and_then next (threw, l) = (threw, l)

-- for (i = 0; i < MAX_DRIVES; i++) if (...) statusData |= 1 << i
unfoldable pub status_from : (ℕ → Bool) → ℕ → ℕ → ℕ → ℕ
status_from ready zero i status = status
status_from ready (suc n) i status =
    status_from ready n (i + 1) (if ready i then bit_or status (2 ^ i) else status)

-- The drive of a READ or a WRIT command and its track.
abbrev pub drive_of : CommandResponseBlock → ℕ
drive_of cmd = msb cmd.param1 / 16

abbrev pub track_of_command : CommandResponseBlock → ℕ
track_of_command cmd = cmd.param1 % 4096

module _ {S : Type 0} (engine : DriveEngine S) where
  abbrev pub clear_heads : ℕ → ℕ → S → S
  clear_heads zero i s = s
  clear_heads (suc n) i s = clear_heads n (i + 1) (engine.set_hdld i false s)

  abbrev pub is_ready : S → ℕ → Bool
  is_ready s i = engine.is_mounted s i && not (engine.is_in_swap_window s i)

  -- The head and the track of the drive that a STAT command names.
  abbrev pub note_stat : CommandResponseBlock → S → S
  note_stat cmd s =
      let drive = lsb cmd.param1 in
      if ltb drive max_drives
      then engine.set_track drive cmd.param2 (engine.set_hdld drive (not (msb cmd.param1 == 0)) s)
      else clear_heads max_drives 0 s

  unfoldable pub handle_stat : CommandResponseBlock → Line S → Outcome × Line S
  unfolding status_from
  handle_stat cmd l =
      let noted = note_stat cmd l.engine in
      send_buffer (to_buffer (record cmd { param2 = status_from (is_ready noted) max_drives 0 0 }))
        (record l { engine = noted })

  abbrev pub note_track : ℕ → ℕ → S → S
  note_track drive track s = if ltb drive max_drives then engine.set_track drive track s else s

  abbrev pub send_track : Option (List ℕ) × S → Line S → Outcome × Line S
  send_track (some bytes, s) l = send_buffer bytes (record l { engine = s })
  send_track (none, s) l = (threw, record l { engine = s })

  -- An error is written to the console, and the command ends.
  unfoldable pub handle_read : CommandResponseBlock → Line S → Outcome × Line S
  handle_read cmd l =
      let drive = drive_of cmd in
      let track = track_of_command cmd in
      let noted = note_track drive track l.engine in
      recover (λ l'. (returned, l'))
        (send_track (engine.read_track drive track cmd.param2 noted) (record l { engine = noted }))

  abbrev pub store_track :
      CommandResponseBlock → ℕ → ℕ → Option (List ℕ) × Line S → Outcome × Line S
  store_track cmd drive track (none, l) = (threw, l)
  store_track cmd drive track (some bytes, l) =
      let w = engine.write_track drive track cmd.param2 bytes l.engine in
      (outcome w.0, record l { engine = w.1 })

  -- The `try` of a WRIT command, and its `catch`.
  abbrev pub receive_track : CommandResponseBlock → ℕ → ℕ → Line S → Outcome × Line S
  receive_track cmd drive track l =
      let wsta = record cmd { cmd = wsta_text; param1 = error_code fdc_ok } in
      recover (λ l'. send_write_response wsta (engine.fdc_errno l'.engine) l')
        (and_then (send_write_response wsta fdc_ok)
          (store_track cmd drive track (receive_buffer l)))

  abbrev pub accept_write : CommandResponseBlock → ℕ → ℕ → Bool × S → Line S → Outcome × Line S
  accept_write cmd drive track (false, s) l =
      send_write_response cmd not_ready (record l { engine = s })
  accept_write cmd drive track (true, s) l =
      and_then (receive_track cmd drive track)
        (send_write_response cmd fdc_ok (record l { engine = s }))

  unfoldable pub handle_write : CommandResponseBlock → Line S → Outcome × Line S
  handle_write cmd l =
      let drive = drive_of cmd in
      let track = track_of_command cmd in
      if ltb drive max_drives
      then (let noted = engine.set_track drive track l.engine in
          accept_write cmd drive track (engine.can_write drive noted) (record l { engine = noted }))
      else send_write_response cmd not_ready l

  abbrev pub dispatch : Option FdcCommand → CommandResponseBlock → Line S → Outcome × Line S
  dispatch (some stat) cmd l = handle_stat cmd l
  dispatch (some read) cmd l = handle_read cmd l
  dispatch (some writ) cmd l = handle_write cmd l
  dispatch none cmd l = (returned, l)

  unfoldable pub process_command : CommandResponseBlock → Line S → Outcome × Line S
  unfolding handle_stat handle_read handle_write get_command
  process_command cmd l = dispatch (get_command cmd) cmd l

  abbrev pub process_parsed : Option CommandResponseBlock → Line S → Outcome × Line S
  process_parsed none l = (threw, l)
  process_parsed (some cmd) l = process_command cmd l

  abbrev pub process_buffer : Option (List ℕ) × Line S → Outcome × Line S
  process_buffer (none, l) = (threw, l)
  process_buffer (some buffer, l) = process_parsed (from_buffer buffer) l

  -- One round of the command loop, the port being open and the server not paused.
  unfoldable pub serve_command : Line S → Line S
  unfolding process_command from_buffer
  serve_command l = (process_buffer (receive_buffer l)).1
