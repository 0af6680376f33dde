-- ===== src/Session/Track.antt =====
-- src/drive-session.ts: `readTrack`, `writeTrack` and the fork of a splinter. The path of a splinter
-- is a parameter: the source builds it from the master's directory, the client and the drive, or
-- from random bytes. A copy or an open of a file that is not there fails; other failures of the
-- disk are not modelled.
use bitsby.Prelude.{
  ℕ, ◌*◌, Bool, true, false, not, ◌&&◌, ◌||◌, Option, none, some, List, ◌==◌, ltb, if◌then◌else◌,
  length, take,
}
use bitsby.Fdc.Protocol.{FdcError, fdc_ok, not_ready, write_err, max_track_len}
use bitsby.Session.Bytes.{read_span, write_span}
use bitsby.Session.State.{FilePath, SessionDrive, DriveSession, put_drive, put_file, bytes_of}

-- A throw with an error code for the server.
abbrev pub refuse {ℓ} : {A : Type ℓ} → FdcError → DriveSession → Option A × DriveSession
refuse e s = (none, record s { fdc_errno = e })

abbrev pub read_open :
    ℕ → ℕ → ℕ → Option SessionDrive → DriveSession → Option (List ℕ) × DriveSession
read_open drive track size none s = refuse not_ready s
read_open drive track size (some sd) s =
    if not sd.mounted
    then refuse not_ready s
    else if size == 0 || ltb max_track_len size
    then refuse not_ready s
    else (
      some (read_span (bytes_of (s.files sd.handle_path)) (track * size) size),
      record (put_drive drive (record sd { track = track; last_io = some s.now }) s) {
        fdc_errno = fdc_ok;
      },
    )

unfoldable pub read_track : ℕ → ℕ → ℕ → DriveSession → Option (List ℕ) × DriveSession
read_track drive track size s = read_open drive track size (s.drives drive) s

-- A session: whether it writes the master itself, and the paths of its splinters.
module _ (writes_master : Bool) (splinter_path : FilePath → ℕ → FilePath) where
  -- `none` is a master that cannot be copied. The row that a persistent splinter gets in the end is
  -- added by `record_fork` in Session/Mount.
  abbrev pub fork_from :
      ℕ → SessionDrive → Option (List ℕ) → DriveSession → Option SessionDrive × DriveSession
  fork_from drive sd none s = (none, s)
  fork_from drive sd (some bytes) s =
      let splinter = splinter_path sd.master drive in
      let forked = record sd {
        handle_path = splinter;
        handle_writable = true;
        scratch_path = some splinter;
      } in
      (some forked, record (put_drive drive forked s) { files = put_file splinter bytes s.files })

  abbrev pub forked_already : Option FilePath → Bool
  forked_already none = false
  forked_already (some path) = true

  unfoldable pub fork_splinter :
      ℕ → SessionDrive → DriveSession → Option SessionDrive × DriveSession
  fork_splinter drive sd s =
      if not writes_master && not (forked_already sd.scratch_path)
      then fork_from drive sd (s.files sd.master) s
      else (some sd, s)

  -- The write itself, on a handle that is open for writing.
  abbrev pub write_open :
      ℕ → ℕ → ℕ → List ℕ → Option SessionDrive × DriveSession → Option ℕ × DriveSession
  write_open drive track size bytes (none, s) = (none, s)
  write_open drive track size bytes (some sd, s) =
      if sd.handle_writable
      then (
        some size,
        record (put_drive drive (record sd { track = track; last_io = some s.now; dirty = true })
            s) {
              files =
                  put_file sd.handle_path
                    (write_span (bytes_of (s.files sd.handle_path)) (track * size)
                      (take size bytes))
                    s.files;
              fdc_errno = fdc_ok;
            },
      )
      else (none, s)

  abbrev pub write_checked :
      ℕ → ℕ → ℕ → List ℕ → Option SessionDrive → DriveSession → Option ℕ × DriveSession
  write_checked drive track size bytes none s = refuse not_ready s
  write_checked drive track size bytes (some sd) s =
      if not sd.mounted
      then refuse not_ready s
      else if size == 0 || ltb max_track_len size || ltb (length bytes) size
      then refuse write_err s
      else write_open drive track size bytes (fork_splinter drive sd s)

  unfoldable pub write_track : ℕ → ℕ → ℕ → List ℕ → DriveSession → Option ℕ × DriveSession
  unfolding fork_splinter
  write_track drive track size bytes s = write_checked drive track size bytes (s.drives drive) s
