-- ===== src/Fdc/Server/Write.antt =====
-- src/server.ts: the dialogue of WRIT over a line on which every send succeeds.
use mathlib.Core.List.{append_assoc}
use bitsby.Prelude.{
  ℕ, ◌≡◌, refl, ap, Bool, true, false, Option, some, List, [], ◌∷◌, ◌++◌, ltb, lt→ltb, arith,
  get_or,
}
use bitsby.Fdc.Protocol.{
  CommandResponseBlock, FdcError, fdc_ok, not_ready, checksum_err, write_err, error_code, to_buffer,
  wsta_text, max_drives,
}
use bitsby.Fdc.Server.{DriveEngine, Line, returned, drive_of, track_of_command, handle_write}

-- A line on which every send succeeds.
abbrev pub clear_line : {S : Type 0} → S → List (List ℕ) → List (Option (List ℕ)) → Line S
clear_line s log receives = record { engine = s; sent = log; sends = []; receives = receives }

-- The bytes of the answer to a WRIT command, and of the status of the write.
abbrev pub reply : CommandResponseBlock → FdcError → List ℕ
reply cmd e = to_buffer (record cmd { param1 = error_code e })

abbrev pub status_reply : CommandResponseBlock → FdcError → List ℕ
status_reply cmd e = to_buffer (record cmd { cmd = wsta_text; param1 = error_code e })

pub drive_of-below : (cmd : CommandResponseBlock) → ltb (drive_of cmd) max_drives ≡ true
drive_of-below cmd = lt→ltb (drive_of cmd) max_drives (omega arith)

pub status_reply-fdc_ok :
    (cmd : CommandResponseBlock) (e : FdcError)
    → status_reply cmd e ≡ status_reply cmd fdc_ok
    → e ≡ fdc_ok
unfolding to_buffer
status_reply-fdc_ok cmd fdc_ok h = refl
status_reply-fdc_ok cmd not_ready h = absurd (omega (arith, ap (λ l. get_or l 4 0) h))
status_reply-fdc_ok cmd checksum_err h = absurd (omega (arith, ap (λ l. get_or l 4 0) h))
status_reply-fdc_ok cmd write_err h = absurd (omega (arith, ap (λ l. get_or l 4 0) h))

module _ {S : Type 0} (engine : DriveEngine S) (cmd : CommandResponseBlock) where
  abbrev Accepted : S → S → Type 0
  Accepted s s' =
      engine.can_write (drive_of cmd) (engine.set_track (drive_of cmd) (track_of_command cmd) s)
      ≡ (true, s')

  -- If the data arrives but the engine's write fails, the status is the code that the engine holds.
  pub handle_write-failed :
      (s s' s'' : S) (log : List (List ℕ)) (bytes : List ℕ) (receives : List (Option (List ℕ)))
      → Accepted s s'
      → engine.write_track (drive_of cmd) (track_of_command cmd) cmd.param2 bytes s' ≡ (false, s'')
      → handle_write engine cmd (clear_line s log (some bytes ∷ receives)) ≡ (
        returned,
        clear_line s''
            (log ++ (reply cmd fdc_ok ∷ status_reply cmd (engine.fdc_errno s'') ∷ []))
            receives,
      )
  unfolding handle_write
  handle_write-failed s s' s'' log bytes receives h failed = rw (
    drive_of-below cmd,
    h,
    failed,
    append_assoc log (reply cmd fdc_ok ∷ []) (status_reply cmd (engine.fdc_errno s'') ∷ []),
  )
