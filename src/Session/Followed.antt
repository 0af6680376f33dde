-- ===== src/Session/Followed.antt =====
-- src/drive-session.ts: after `sync`, the open drives are those of the mounts.
use bitsby.Prelude.{ℕ, ◌+◌, ◌<◌, ◌≤◌, ◌≡◌, ◌⊎◌, Bool, true, false, Option, none, some, ◌≢◌}
use bitsby.Session.State.{FilePath, SessionDrive, DriveSession}
use bitsby.Session.Mount.{SplinterRow, Synced, SessionOptions, Effective, resolve_effective}
use bitsby.Session.Opened.{considered, OpenedOn}

-- A drive that was opened: it is closed and the mount's file is missing, or it is open on the mount.
abbrev pub Reopened :
    SessionOptions → Option SplinterRow → Effective → Bool → ℕ → DriveSession → ℕ → Type 0
Reopened o row e was_mounted now s drive =
    ((s.drives drive ≡ none) × (s.files e.filename ≡ none))
    ⊎ ((sd : SessionDrive) × (s.drives drive ≡ some sd)
        × OpenedOn o row e was_mounted now s.files sd)

-- A drive follows its mount: it is closed without one; it is just the drive of before if that was
-- open on the same version; and else it was opened.
abbrev pub Follows :
    SessionOptions
    → Option SplinterRow
    → Option Effective
    → Option SessionDrive
    → ℕ
    → DriveSession
    → ℕ
    → Type 0
Follows o row none cur now s drive = s.drives drive ≡ none
Follows o row (some e) none now s drive = Reopened o row e false now s drive
Follows o row (some e) (some cur) now s drive =
    ((cur.base_version ≡ e.version) × (s.drives drive ≡ some cur))
    ⊎ ((cur.base_version ≢ e.version) × Reopened o row e true now s drive)

-- The rounds of the loop from a drive on.
abbrev Loop : SessionOptions → ℕ → ℕ → Synced → Synced → Type 0
Loop o left drive s t =
    (t.session.now ≡ s.session.now)
    × ((d : ℕ) → d < drive → t.session.drives d ≡ s.session.drives d)
    × ((p : FilePath) → s.session.files p ≡ none → t.session.files p ≡ none)
    × ((d : ℕ)
        → drive ≤ d
        → d < drive + left
        → Follows o (considered o (s.rows d)) (resolve_effective o d) (s.session.drives d)
            s.session.now t.session d)
