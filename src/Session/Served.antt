-- ===== src/Session/Served.antt =====
-- src/server.ts, src/drive-session.ts: what a machine that a session serves sees.
use bitsby.Prelude.{ℕ, false, Option}
use bitsby.Fdc.Protocol.{CommandResponseBlock}
use bitsby.Fdc.Server.{DriveEngine, drive_of, track_of_command}
use bitsby.Session.State.{FilePath, SessionDrive, DriveSession, put_drive}
use bitsby.Session.Engine.{session_engine}

module _ (splinter_path : FilePath → ℕ → FilePath) (cmd : CommandResponseBlock) (sd : SessionDrive)
    (s : DriveSession) where
  abbrev engine : DriveEngine DriveSession
  engine = session_engine false splinter_path

  -- The drive once its track has been noted.
  abbrev noted : SessionDrive
  noted = record sd { track = track_of_command cmd }

  abbrev noted_session : DriveSession
  noted_session = put_drive (drive_of cmd) noted s
