-- ===== src/Session/Tests.antt =====
-- Witnesses for src/drive-session.ts: a master of six bytes, tracks of two bytes, and a drive that
-- has not been written yet.
use bitsby.Prelude.{
  Option, List, ◌≡◌, ℕ, refl, ap, inr, true, false, none, some, [], ◌∷◌, ◌==◌, if◌then◌else◌, arith,
  list_eq, get_or, ◌<◌, ◌^◌,
}
use bitsby.Fdc.Protocol.{CommandResponseBlock, fdc_ok, stat_text, writ_text, to_buffer}
use bitsby.Fdc.Server.{Outcome, returned, Line, handle_stat}
use bitsby.Fdc.Server.Status.{bit_at}
use bitsby.Session.Stat.{handle_stat-noted}
use bitsby.Fdc.Server.Write.{clear_line}
use bitsby.Session.Engine.{session_engine}
use bitsby.Session.State.{FilePath, SessionDrive, DriveSession}
use bitsby.Session.Track.{write_track}
use bitsby.Text.{number_text}
use bitsby.Mounts.Registry.{MountEntry}
use bitsby.Session.Mount.{
  SessionOptions, Synced, Effective, sync_drive, write_synced, resolve_effective, close_drive, sync,
}
use bitsby.Session.Reattached.{write_synced-reattached}
use bitsby.Session.Track.{read_track}
use bitsby.Session.Isolation.{Isolated, write_track-Isolated}

abbrev master_path : FilePath
master_path = b'm' ∷ []

abbrev fork_path : FilePath → ℕ → FilePath
fork_path master drive = b's' ∷ drive ∷ []

abbrev drive_a : SessionDrive
drive_a = record {
  handle_path = master_path;
  handle_writable = false;
  master = master_path;
  base_version = [];
  mounted = true;
  hdld = false;
  track = 0;
  last_io = none;
  unavailable_until = none;
  scratch_path = none;
  dirty = false;
}

abbrev session : DriveSession
session = record {
  fdc_errno = fdc_ok;
  drives = λ d. if d == 1 then some drive_a else none;
  files = λ p. if list_eq p master_path then some (1 ∷ 2 ∷ 3 ∷ 4 ∷ 5 ∷ 6 ∷ []) else none;
  now = 0;
}

-- Track 1 of drive 1 is written; the master, drive 0 and track 2 stay.
write_track-Isolated_example :
    Isolated 1 1 2
      (7 ∷ 8 ∷ [])
      session
      master_path
      0
      2
      (write_track false fork_path 1 1 2 (7 ∷ 8 ∷ []) session)
write_track-Isolated_example =
    write_track-Isolated fork_path 1 1 2 (7 ∷ 8 ∷ []) drive_a session (b's' ∷ 1 ∷ []) master_path 0
      2 refl (inr (refl, refl, refl, ((1 ∷ 2 ∷ 3 ∷ 4 ∷ 5 ∷ 6 ∷ []), refl)))
      (refl, omega arith, omega arith) (omega arith)
      (λ e. absurd (omega (arith, ap (λ p. get_or p 0 0) e))) (λ e. absurd (omega (arith, e)))
      (λ e. absurd (omega (arith, e)))

-- WRIT of two bytes to track 1 of drive 1
abbrev write_command : CommandResponseBlock
write_command = record { cmd = writ_text; param1 = 0x1001; param2 = 2 }

abbrev without_master : DriveSession
without_master = record session { files = λ p. none }

-- Drive 1 was open on a mount that has been replaced; its file is there.
abbrev remount : MountEntry
remount = record { filename = master_path; readonly = false; epoch = 12 }

abbrev options : SessionOptions
options = record {
  writes_master = false;
  persistent = false;
  inherits_global = true;
  overrides = λ d. none;
  mounts = λ d. if d == 1 then some remount else none;
  basename = λ p. p;
}

abbrev synced : Synced
synced = record { session = session; rows = λ d. none }

abbrev version_of : Option SessionDrive → List ℕ
version_of none = []
version_of (some sd) = sd.base_version

reopened : version_of ((sync options synced).session.drives 1) ≡ (b'g' ∷ b'1' ∷ b'2' ∷ [])
unfolding sync resolve_effective close_drive number_text
reopened = refl

-- The head of drive 1 is loaded at track 9.
abbrev stat_command : CommandResponseBlock
stat_command = record { cmd = stat_text; param1 = 0x0101; param2 = 9 }

handle_stat-noted_example :
    let result : Outcome × Line DriveSession =
      handle_stat (session_engine false fork_path) stat_command (clear_line session [] []) in
    (word : ℕ) × (result.0 ≡ returned)
    × (result.1.sent ≡ to_buffer (record stat_command { param2 = word }) ∷ [])
    × (word < 2 ^ 16)
    × (bit_at word 1 ≡ 1)
    × (result.1.engine.drives 1 ≡ some (record drive_a { hdld = true; track = 9 }))
handle_stat-noted_example =
    handle_stat-noted false fork_path stat_command session [] [] 1 (omega arith)

abbrev persistent_options : SessionOptions
persistent_options = record options { persistent = true }

abbrev remounted : Effective
remounted = record { filename = master_path; version = b'g' ∷ b'1' ∷ b'2' ∷ [] }

write_synced-reattached_example :
    let w = write_synced persistent_options fork_path 1 1 2 (7 ∷ 8 ∷ []) synced in
    let back = (sync_drive persistent_options 1 (close_drive persistent_options 1 w.1)).session in
    (w.0 ≡ some 2)
    × ((again' : SessionDrive) × (back.drives 1 ≡ some again')
        × (again'.handle_path ≡ b's' ∷ 1 ∷ [])
        × (again'.scratch_path ≡ some (b's' ∷ 1 ∷ [])))
    × ((read_track 1 1 2 back).0 ≡ some (7 ∷ 8 ∷ []))
unfolding resolve_effective number_text
write_synced-reattached_example =
    write_synced-reattached persistent_options fork_path 1 1 2 (7 ∷ 8 ∷ [])
      (1 ∷ 2 ∷ 3 ∷ 4 ∷ 5 ∷ 6 ∷ []) drive_a remounted synced refl refl refl
      (refl, omega arith, omega arith) (omega arith) refl refl refl refl
