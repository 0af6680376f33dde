-- ===== src/Session/Isolation.antt =====
-- src/drive-session.ts: a write of a session that does not own the master stays in its splinter.
use mathlib.Core.Path.{subst}
use bitsby.Prelude.{
  other-list_eq, ℕ, ◌*◌, ◌≤◌, ◌≡◌, ◌≢◌, ◌⊎◌, inl, inr, refl, sym, ap, ◌∙◌, true, false, Option,
  none, some, List, ◌==◌, ltb, list_eq, list_eq_refl, length, take, arith,
}
use bitsby.Fdc.Protocol.{max_track_len}
use bitsby.Session.Bytes.{read_span}
use bitsby.Session.State.{FilePath, SessionDrive, DriveSession, put_drive, put_file, bytes_of}
use bitsby.Session.Track.{read_track, write_track, fork_splinter}
use bitsby.Session.CopyOnWrite.{
  Readable, read_track-open, written, written-same_track, written-other_track,
}

-- The file that a drive's next write goes to: its splinter if it has one, which its handle has open
-- for writing, and else the path for one, its handle having open a master that is there.
abbrev pub WritesTo :
    (FilePath → ℕ → FilePath) → ℕ → SessionDrive → DriveSession → FilePath → Type 0
WritesTo splinter_path drive sd s target =
    ((sd.scratch_path ≡ some target) × (sd.handle_path ≡ target) × (sd.handle_writable ≡ true))
    ⊎ ((sd.scratch_path ≡ none)
        × (sd.handle_path ≡ sd.master)
        × (target ≡ splinter_path sd.master drive)
        × ((m : List ℕ) × (s.files sd.master ≡ some m)))

module _ (splinter_path : FilePath → ℕ → FilePath) (drive track size : ℕ) (bytes : List ℕ)
    (sd : SessionDrive) (s : DriveSession) where
  write_track-forked :
      (target : FilePath)
      → s.drives drive ≡ some sd
      → Readable sd size
      → size ≤ length bytes
      → sd.scratch_path ≡ some target
      → sd.handle_writable ≡ true
      → write_track false splinter_path drive track size bytes s
        ≡ (some size, written drive track size bytes sd s)
  unfolding write_track fork_splinter
  write_track-forked target at_drive (mounted, positive, fits) enough scratch writable =
      let some_bytes : (size == 0) ≡ false = ground arith in
      let in_range : ltb max_track_len size ≡ false = ground arith in
      let all_there : ltb (length bytes) size ≡ false = ground arith in
      rw (at_drive, mounted, some_bytes, in_range, all_there, scratch, writable)

  abbrev pub forked : SessionDrive
  forked = record sd {
    handle_path = splinter_path sd.master drive;
    handle_writable = true;
    scratch_path = some (splinter_path sd.master drive);
  }

  abbrev pub after_fork : List ℕ → DriveSession
  after_fork m = record (put_drive drive forked s) {
    files = put_file (splinter_path sd.master drive) m s.files;
  }

  pub write_track-fresh :
      (m : List ℕ)
      → s.drives drive ≡ some sd
      → Readable sd size
      → size ≤ length bytes
      → sd.scratch_path ≡ none
      → s.files sd.master ≡ some m
      → write_track false splinter_path drive track size bytes s
        ≡ (some size, written drive track size bytes forked (after_fork m))
  unfolding write_track fork_splinter
  write_track-fresh m at_drive (mounted, positive, fits) enough scratch at_master =
      let some_bytes : (size == 0) ≡ false = ground arith in
      let in_range : ltb max_track_len size ≡ false = ground arith in
      let all_there : ltb (length bytes) size ≡ false = ground arith in
      rw (at_drive, mounted, some_bytes, in_range, all_there, scratch, at_master)

other-drive : (d drive : ℕ) → d ≢ drive → (d == drive) ≡ false
other-drive d drive h = ground arith

-- What a write leaves: the outcome, another file, another drive, the track that was written, and
-- another track of the drive.
abbrev pub Isolated :
    ℕ → ℕ → ℕ → List ℕ → DriveSession → FilePath → ℕ → ℕ → Option ℕ × DriveSession → Type 0
Isolated drive track size bytes s path d t w =
    (w.0 ≡ some size)
    × (w.1.files path ≡ s.files path)
    × (w.1.drives d ≡ s.drives d)
    × ((read_track drive track size w.1).0 ≡ some (take size bytes))
    × ((read_track drive t size w.1).0 ≡ (read_track drive t size s).0)

-- A session that does not own the master writes a whole track of a mounted drive: the write gives
-- the length; every file but the drive's splinter, so the master too if it has another path, and
-- every other drive of the session stay as they were; the track reads as the bytes that were
-- written, and every other track of that length as it read before, from the splinter or, if the
-- write has forked it, from the master.
pub write_track-Isolated :
    (splinter_path : FilePath → ℕ → FilePath) (drive track size : ℕ) (bytes : List ℕ)
    (sd : SessionDrive) (s : DriveSession) (target path : FilePath) (d t : ℕ)
    → s.drives drive ≡ some sd
    → WritesTo splinter_path drive sd s target
    → Readable sd size
    → size ≤ length bytes
    → path ≢ target
    → d ≢ drive
    → t ≢ track
    → Isolated drive track size bytes s path d t
        (write_track false splinter_path drive track size bytes s)
write_track-Isolated splinter_path drive track size bytes sd s target path d t at_drive
      (inl (scratch, at_target, writable)) readable enough apart other later =
    let elsewhere : list_eq path sd.handle_path ≡ false =
      other-list_eq path sd.handle_path (λ e. apart (e ∙ at_target)) in
    let aside = other-drive d drive other in
    subst (Isolated drive track size bytes s path d t)
      (sym (
        write_track-forked splinter_path drive track size bytes sd s target at_drive readable enough
          scratch writable))
      (
        refl,
        (rw elsewhere),
        (rw aside),
        written-same_track drive track size bytes sd s readable enough,
        written-other_track drive track size bytes sd s t (λ e. later (sym e)) readable enough
            ∙ sym (read_track-open drive t size sd s at_drive readable),
      )
write_track-Isolated splinter_path drive track size bytes sd s target path d t at_drive
      (inr (scratch, at_master, e, (m, found))) readable enough apart other later =
    let splinter = splinter_path sd.master drive in
    let elsewhere : list_eq path splinter ≡ false =
      other-list_eq path splinter (λ e'. apart (e' ∙ sym e)) in
    let aside = other-drive d drive other in
    let copy_of = forked splinter_path drive track size bytes sd s in
    let forked_session = after_fork splinter_path drive track size bytes sd s m in
    let source : some m ≡ s.files sd.handle_path = sym found ∙ ap (s.files) (sym at_master) in
    subst (Isolated drive track size bytes s path d t)
      (sym (
        write_track-fresh splinter_path drive track size bytes sd s m at_drive readable enough
          scratch found))
      (
        refl,
        (rw elsewhere),
        (rw aside),
        written-same_track drive track size bytes copy_of forked_session readable enough,
        written-other_track drive track size bytes copy_of forked_session t (λ e'. later (sym e'))
              readable enough
            ∙ rw (list_eq_refl splinter)
                (ap (λ f. some (read_span (bytes_of f) (t * size) size)) source)
            ∙ sym (read_track-open drive t size sd s at_drive readable),
      )
