-- ===== src/Session/Mount.antt =====
-- src/drive-session.ts: `sync`, which follows the mounts of the registries, with `openDrive`,
-- `closeDrive` and `dispose`, and the row that a fork records. The rows of the database for the client's persistent splinters are
-- part of the state; the base name of a path is a parameter. Opening a file that is not there
-- fails; other failures of the disk and failures of the database are not modelled.
use bitsby.Text.{number_text}
use bitsby.Prelude.{
  ℕ, zero, suc, ◌+◌, Bool, true, false, Option, none, some, List, ◌∷◌, ◌==◌, list_eq, if◌then◌else◌,
}
use bitsby.Fdc.Protocol.{max_drives}
use bitsby.Mounts.Registry.{MountEntry}
use bitsby.Session.Track.{write_track}
use bitsby.Session.State.{FilePath, SessionDrive, DriveSession, put_drive}

abbrev pub swap_invalidate_window_ms : ℕ
swap_invalidate_window_ms = 2500

-- A row of the client's splinters.
pub record SplinterRow : Type 0 where
  pub base_filename : List ℕ
  pub path : FilePath
  pub dirty : Bool

-- The session, and the rows of the client by drive.
pub record Synced : Type 0 where
  pub session : DriveSession
  pub rows : ℕ → Option SplinterRow

-- The mount that a drive should have: the file and the version.
pub record Effective : Type 0 where
  pub filename : FilePath
  pub version : List ℕ

-- this.drives.delete(drive), and fs.unlink
abbrev pub drop_drive : ℕ → DriveSession → DriveSession
drop_drive drive s = record s { drives = λ d. if d == drive then none else s.drives d }

abbrev pub unlink : FilePath → DriveSession → DriveSession
unlink path s = record s { files = λ p. if list_eq p path then none else s.files p }

abbrev pub delete_row : ℕ → Synced → Synced
delete_row drive st = record st { rows = λ d. if d == drive then none else st.rows d }

abbrev pub in_session : (DriveSession → DriveSession) → Synced → Synced
in_session f st = record st { session = f st.session }

abbrev pub exists : Option (List ℕ) → Bool
exists none = false
exists (some bytes) = true

-- `version` of a client's override, and of a global mount.
abbrev pub client_version : MountEntry → Effective
client_version e = record { filename = e.filename; version = b'c' ∷ number_text e.epoch }

abbrev pub global_version : MountEntry → Effective
global_version e = record { filename = e.filename; version = b'g' ∷ number_text e.epoch }

abbrev pub or_global : Bool → Option MountEntry → Option MountEntry → Option Effective
or_global inherits_global (some o) g = some (client_version o)
or_global true none (some g) = some (global_version g)
or_global true none none = none
or_global false none g = none

-- A session's options, its client's overrides and the global mounts (none of the former without a
-- client id or a registry of them), and the base name of a path.
pub record SessionOptions : Type 0 where
  pub writes_master : Bool
  pub persistent : Bool
  pub inherits_global : Bool
  pub overrides : ℕ → Option MountEntry
  pub mounts : ℕ → Option MountEntry
  pub basename : FilePath → List ℕ

unfoldable pub resolve_effective : SessionOptions → ℕ → Option Effective
unfolding number_text
resolve_effective o drive = or_global o.inherits_global (o.overrides drive) (o.mounts drive)

abbrev pub make_drive :
    FilePath → Bool → Effective → Bool → ℕ → Option FilePath → Bool → SessionDrive
make_drive path writable e was_mounted now scratch_path dirty = record {
  handle_path = path;
  handle_writable = writable;
  master = e.filename;
  base_version = e.version;
  mounted = true;
  hdld = false;
  track = 0;
  last_io = none;
  unavailable_until = if was_mounted then some (now + swap_invalidate_window_ms) else none;
  scratch_path = scratch_path;
  dirty = dirty;
}

-- An open handle on a file, unless the file is missing.
abbrev pub open_file : ℕ → SessionDrive → Synced → Bool × Synced
open_file drive sd st =
    if exists (st.session.files sd.handle_path)
    then (true, in_session (put_drive drive sd) st)
    else (false, st)

-- Copy on write: the master is read until the first write.
abbrev pub open_fresh : ℕ → Effective → Bool → Synced → Bool × Synced
open_fresh drive e was_mounted st =
    open_file drive (make_drive e.filename false e was_mounted st.session.now none false) st

-- A persistent splinter of the same base is taken up again; the row of one that vanished, and a
-- splinter of another base, are dropped.
abbrev pub reattach :
    SessionOptions → ℕ → Effective → Bool → Option SplinterRow → Synced → Bool × Synced
reattach o drive e was_mounted none st = open_fresh drive e was_mounted st
reattach o drive e was_mounted (some row) st =
    if list_eq row.base_filename (o.basename e.filename)
    then (if exists (st.session.files row.path)
        then open_file drive
            (make_drive row.path true e was_mounted st.session.now (some row.path) row.dirty) st
        else open_fresh drive e was_mounted (delete_row drive st))
    else open_fresh drive e was_mounted (delete_row drive (in_session (unlink row.path) st))

abbrev pub open_drive : SessionOptions → ℕ → Effective → Bool → Synced → Bool × Synced
open_drive o drive e was_mounted st =
    if o.writes_master
    then open_file drive (make_drive e.filename true e was_mounted st.session.now none false) st
    else reattach o drive e was_mounted (if o.persistent then st.rows drive else none) st

-- An ephemeral splinter is discarded with its drive.
abbrev pub discard : SessionOptions → Option FilePath → DriveSession → DriveSession
discard o none s = s
discard o (some path) s = if o.persistent then s else unlink path s

abbrev pub close_open : SessionOptions → ℕ → Option SessionDrive → DriveSession → DriveSession
close_open o drive none s = s
close_open o drive (some sd) s = drop_drive drive (discard o sd.scratch_path s)

unfoldable pub close_drive : SessionOptions → ℕ → Synced → Synced
close_drive o drive st = in_session (close_open o drive (st.session.drives drive)) st

-- The try block around openDrive: after an exception the drive is deleted.
abbrev pub catch_open : ℕ → Bool × Synced → Synced
catch_open drive (true, st) = st
catch_open drive (false, st) = in_session (drop_drive drive) st

-- One drive of the loop, by its mount and by the drive that is open.
abbrev pub sync_mount :
    SessionOptions → ℕ → Option Effective → Option SessionDrive → Synced → Synced
sync_mount o drive none none st = st
sync_mount o drive none (some cur) st = close_drive o drive st
sync_mount o drive (some e) none st = catch_open drive (open_drive o drive e false st)
sync_mount o drive (some e) (some cur) st =
    if list_eq cur.base_version e.version
    then st
    else catch_open drive (open_drive o drive e true (close_drive o drive st))

abbrev pub sync_drive : SessionOptions → ℕ → Synced → Synced
sync_drive o drive st = sync_mount o drive (resolve_effective o drive) (st.session.drives drive) st

-- The loop, with the drives that are left.
abbrev pub sync_from : SessionOptions → ℕ → ℕ → Synced → Synced
sync_from o zero drive st = st
sync_from o (suc left) drive st = sync_from o left (drive + 1) (sync_drive o drive st)

unfoldable pub sync : SessionOptions → Synced → Synced
unfolding resolve_effective close_drive
sync o st = sync_from o max_drives 0 st

-- The loop of dispose; closing a drive that is not open does nothing.
abbrev pub dispose_from : SessionOptions → ℕ → ℕ → Synced → Synced
dispose_from o zero drive st = st
dispose_from o (suc left) drive st = dispose_from o left (drive + 1) (close_drive o drive st)

unfoldable pub dispose : SessionOptions → Synced → Synced
unfolding close_drive
dispose o st = dispose_from o max_drives 0 st

-- `writeTrack` with the row that forkSplinter leaves of a persistent splinter.
abbrev pub upsert_row : ℕ → SplinterRow → Synced → Synced
upsert_row drive row st = record st { rows = λ d. if d == drive then some row else st.rows d }

abbrev pub scratch_in : Option SessionDrive → Option FilePath
scratch_in none = none
scratch_in (some sd) = sd.scratch_path

abbrev pub record_fork :
    SessionOptions → ℕ → Option FilePath → Option SessionDrive → Synced → Synced
record_fork o drive before none st = st
record_fork o drive (some path) (some sd) st = st
record_fork o drive none (some sd) st = record_splinter sd.scratch_path
  where
    record_splinter : Option FilePath → Synced
    record_splinter none = st
    record_splinter (some path) =
        if o.persistent
        then upsert_row drive
            (record { base_filename = o.basename sd.master; path = path; dirty = true }) st
        else st

unfoldable pub write_synced :
    SessionOptions → (FilePath → ℕ → FilePath) → ℕ → ℕ → ℕ → List ℕ → Synced → Option ℕ × Synced
unfolding write_track
write_synced o splinter_path drive track size bytes st =
    let w = write_track o.writes_master splinter_path drive track size bytes st.session in
    (
      w.0,
      record_fork o drive (scratch_in (st.session.drives drive)) (w.1.drives drive)
          (record st { session = w.1 }),
    )
