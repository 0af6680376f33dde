-- ===== src/Session/State.antt =====
-- src/drive-session.ts: the state of a `DriveSession`, the files it works on, and the questions
-- that the server asks. A path is the list of its character codes.
use bitsby.Prelude.{
  ℕ, Bool, false, not, ◌&&◌, Option, none, some, List, [], ◌==◌, ltb, list_eq, if◌then◌else◌,
}
use bitsby.Fdc.Protocol.{FdcError}

abbrev pub FilePath : Type 0
FilePath = List ℕ

-- `SessionDrive`: the open handle (its file, and whether it is open for writing), the master and
-- the version it was opened for, and the fields of `DriveState` that the session sets.
pub record SessionDrive : Type 0 where
  pub handle_path : FilePath
  pub handle_writable : Bool
  pub master : FilePath
  pub base_version : List ℕ
  pub mounted : Bool
  pub hdld : Bool
  pub track : ℕ
  pub last_io : Option ℕ
  pub unavailable_until : Option ℕ
  pub scratch_path : Option FilePath
  pub dirty : Bool

-- `DriveSession`, with the files of the disk and the clock.
pub record DriveSession : Type 0 where
  pub fdc_errno : FdcError
  pub drives : ℕ → Option SessionDrive
  pub files : FilePath → Option (List ℕ)
  pub now : ℕ

abbrev pub put_drive : ℕ → SessionDrive → DriveSession → DriveSession
put_drive drive sd s = record s { drives = λ d. if d == drive then some sd else s.drives d }

abbrev pub put_file : FilePath → List ℕ → (FilePath → Option (List ℕ)) → FilePath → Option (List ℕ)
put_file path bytes files p = if list_eq p path then some bytes else files p

-- The bytes behind an open handle.
abbrev pub bytes_of : Option (List ℕ) → List ℕ
bytes_of none = []
bytes_of (some bytes) = bytes

abbrev pub mounted_in : Option SessionDrive → Bool
mounted_in none = false
mounted_in (some sd) = sd.mounted

unfoldable pub is_mounted : DriveSession → ℕ → Bool
is_mounted s drive = mounted_in (s.drives drive)

abbrev pub until_in : Option SessionDrive → Option ℕ
until_in none = none
until_in (some sd) = sd.unavailable_until

abbrev pub before : ℕ → Option ℕ → Bool
before now none = false
before now (some until) = ltb now until

unfoldable pub is_in_swap_window : DriveSession → ℕ → Bool
is_in_swap_window s drive = before s.now (until_in (s.drives drive))

unfoldable pub can_write : ℕ → DriveSession → Bool × DriveSession
unfolding is_mounted is_in_swap_window
can_write drive s = (is_mounted s drive && not (is_in_swap_window s drive), s)
