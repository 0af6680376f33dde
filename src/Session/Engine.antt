-- ===== src/Session/Engine.antt =====
-- src/drive-session.ts: a `DriveSession` as the `IDriveEngine` of the server. The server sets the
-- head and the track of the object that `getDriveState` gives.
use bitsby.Prelude.{
  ℕ, ◌*◌, ◌≡◌, refl, Bool, true, false, not, ◌||◌, ltb, Option, none, some, List, ◌==◌, arith,
  if◌then◌else◌,
}
use bitsby.Fdc.Server.{DriveEngine}
use bitsby.Session.State.{
  FilePath, SessionDrive, DriveSession, put_drive, is_mounted, is_in_swap_window, can_write,
  bytes_of,
}
use bitsby.Fdc.Protocol.{not_ready, max_track_len}
use bitsby.Session.Bytes.{read_span}
use bitsby.Session.Track.{refuse, read_track, write_track}

abbrev pub update_drive :
    ℕ → (SessionDrive → SessionDrive) → Option SessionDrive → DriveSession → DriveSession
update_drive drive f none s = s
update_drive drive f (some sd) s = put_drive drive (f sd) s

abbrev pub set_hdld : ℕ → Bool → DriveSession → DriveSession
set_hdld drive hdld s = update_drive drive (λ sd. record sd { hdld = hdld }) (s.drives drive) s

abbrev pub set_track : ℕ → ℕ → DriveSession → DriveSession
set_track drive track s = update_drive drive (λ sd. record sd { track = track }) (s.drives drive) s

-- Whether a promise was fulfilled.
abbrev pub fulfilled : Option ℕ → Bool
fulfilled none = false
fulfilled (some n) = true

abbrev pub session_engine : Bool → (FilePath → ℕ → FilePath) → DriveEngine DriveSession
session_engine writes_master splinter_path = record {
  fdc_errno = λ s. s.fdc_errno;
  set_hdld = set_hdld;
  set_track = set_track;
  is_mounted = is_mounted;
  is_in_swap_window = is_in_swap_window;
  read_track = read_track;
  can_write = can_write;
  write_track = λ drive track size bytes s.
      let w = write_track writes_master splinter_path drive track size bytes s in
      (fulfilled w.0, w.1);
}

-- The answer of two reads that are refused alike.
same_answer :
    (a b : Bool) (x : Option (List ℕ)) (s₁ s₂ t₁ t₂ : DriveSession)
    → (if a then refuse not_ready s₁ else if b then refuse not_ready s₁ else (x, t₁)).0
      ≡ (if a then refuse not_ready s₂ else if b then refuse not_ready s₂ else (x, t₂)).0
same_answer true b x s₁ s₂ t₁ t₂ = refl
same_answer false true x s₁ s₂ t₁ t₂ = refl
same_answer false false x s₁ s₂ t₁ t₂ = refl

update_drive-read :
    (drive track t size : ℕ) (found : Option SessionDrive) (s : DriveSession)
    → s.drives drive ≡ found
    → (read_track drive t size (update_drive drive (λ sd. record sd { track = track }) found s)).0
      ≡ (read_track drive t size s).0
unfolding read_track
update_drive-read drive track t size none s e = refl
update_drive-read drive track t size (some sd) s e =
    let here : (drive == drive) ≡ true = ground arith in
    rw (here, e)
      (same_answer (not sd.mounted) (size == 0 || ltb max_track_len size)
        (some (read_span (bytes_of (s.files sd.handle_path)) (t * size) size))
        (put_drive drive (record sd { track = track }) s) s _ _)

-- The track that the server notes does not change what is read.
pub set_track-read :
    (drive track t size : ℕ) (s : DriveSession)
    → (read_track drive t size (set_track drive track s)).0 ≡ (read_track drive t size s).0
set_track-read drive track t size s = update_drive-read drive track t size (s.drives drive) s refl
