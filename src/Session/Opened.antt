-- ===== src/Session/Opened.antt =====
-- src/drive-session.ts: what opening and closing one drive leaves.
use mathlib.Core.Bool.{true≢false}
use mathlib.Core.Path.{subst}
use bitsby.Prelude.{
  ℕ, ◌+◌, ◌≡◌, ◌≢◌, ◌⊎◌, inl, inr, refl, sym, ap, ◌∙◌, Bool, true, false, Option, none, some, List,
  ◌==◌, list_eq, if◌then◌else◌, Bool-cases, arith,
}
use bitsby.Session.State.{FilePath, SessionDrive, DriveSession, put_drive}
use bitsby.Session.Mount.{
  swap_invalidate_window_ms, SplinterRow, Synced, SessionOptions, Effective, drop_drive, unlink,
  delete_row, in_session, exists, make_drive, open_file, open_fresh, reattach, open_drive, discard,
  close_open,
}

-- What the handling of one drive leaves: the clock, the other drives, a missing file missing, and
-- the rows of the other drives.
abbrev pub Kept : ℕ → Synced → Synced → Type 0
Kept drive s t =
    (t.session.now ≡ s.session.now)
    × ((d : ℕ) → d ≢ drive → t.session.drives d ≡ s.session.drives d)
    × ((p : FilePath) → s.session.files p ≡ none → t.session.files p ≡ none)
    × ((d : ℕ) → d ≢ drive → t.rows d ≡ s.rows d)

pub Kept-refl : (drive : ℕ) (s : Synced) → Kept drive s s
Kept-refl drive s = (refl, λ d ne. refl, λ p h. h, λ d ne. refl)

pub Kept-trans : (drive : ℕ) (s t u : Synced) → Kept drive s t → Kept drive t u → Kept drive s u
Kept-trans drive s t u a b =
    (b.0 ∙ a.0, λ d ne. b.1 d ne ∙ a.1 d ne, λ p h. b.2 p (a.2 p h), λ d ne. b.3 d ne ∙ a.3 d ne)

put_drive-Kept :
    (drive : ℕ) (sd : SessionDrive) (s : Synced) → Kept drive s (in_session (put_drive drive sd) s)
put_drive-Kept drive sd s = (
  refl,
  λ d ne. let other : (d == drive) ≡ false = grind (arith, ne) in rw other refl,
  λ p h. h,
  λ d ne. refl,
)

pub drop_drive-Kept : (drive : ℕ) (s : Synced) → Kept drive s (in_session (drop_drive drive) s)
drop_drive-Kept drive s = (
  refl,
  λ d ne. let other : (d == drive) ≡ false = grind (arith, ne) in rw other refl,
  λ p h. h,
  λ d ne. refl,
)

unlink-Kept : (drive : ℕ) (path : FilePath) (s : Synced) → Kept drive s (in_session (unlink path) s)
unlink-Kept drive path s = (
  refl,
  λ d ne. refl,
  λ p h. elim (Bool-cases (list_eq p path)) [ inl k ↦ rw k refl | inr k ↦ rw k h ],
  λ d ne. refl,
)

delete_row-Kept : (drive : ℕ) (s : Synced) → Kept drive s (delete_row drive s)
delete_row-Kept drive s = (
  refl,
  λ d ne. refl,
  λ p h. h,
  λ d ne. let other : (d == drive) ≡ false = grind (arith, ne) in rw other refl,
)

drives-put_drive :
    (drive : ℕ) (sd : SessionDrive) (s : DriveSession)
    → (put_drive drive sd s).drives drive ≡ some sd
drives-put_drive drive sd s = let here : (drive == drive) ≡ true = ground arith in rw here refl

pub drives-drop_drive : (drive : ℕ) (s : DriveSession) → (drop_drive drive s).drives drive ≡ none
drives-drop_drive drive s = let here : (drive == drive) ≡ true = ground arith in rw here refl

-- The row that is considered for a drive: none for the owner of the masters, and none for a session
-- that is not persistent.
abbrev pub considered : SessionOptions → Option SplinterRow → Option SplinterRow
considered o row = if o.writes_master then none else if o.persistent then row else none

-- There is no splinter to take up again: no row, or one of another image, or of a file that is gone.
abbrev pub NoSplinter :
    SessionOptions → Option SplinterRow → Effective → (FilePath → Option (List ℕ)) → Type 0
NoSplinter o row e files =
    (row ≡ none)
    ⊎ ((r : SplinterRow) × (row ≡ some r)
        × ((list_eq r.base_filename (o.basename e.filename) ≡ false) ⊎ (files r.path ≡ none)))

-- The file that a drive was opened on: the mount's, which only the owner of the masters has open
-- for writing, or the splinter of the row, open for writing.
abbrev pub OnFile :
    SessionOptions
    → Option SplinterRow
    → Effective
    → (FilePath → Option (List ℕ))
    → SessionDrive
    → Type 0
OnFile o row e files sd =
    ((sd.handle_path ≡ e.filename)
      × (sd.handle_writable ≡ o.writes_master)
      × (sd.scratch_path ≡ none)
      × (sd.dirty ≡ false)
      × NoSplinter o row e files)
    ⊎ ((r : SplinterRow) × (row ≡ some r)
        × (list_eq r.base_filename (o.basename e.filename) ≡ true)
        × (sd.handle_path ≡ r.path)
        × (sd.handle_writable ≡ true)
        × (sd.scratch_path ≡ some r.path)
        × (sd.dirty ≡ r.dirty))

-- A drive that was opened on a mount, with the swap window where another was open before.
abbrev pub OpenedOn :
    SessionOptions
    → Option SplinterRow
    → Effective
    → Bool
    → ℕ
    → (FilePath → Option (List ℕ))
    → SessionDrive
    → Type 0
OpenedOn o row e was_mounted now files sd =
    (sd.base_version ≡ e.version)
    × (sd.master ≡ e.filename)
    × (sd.mounted ≡ true)
    × (sd.unavailable_until
        ≡ (if was_mounted then some (now + swap_invalidate_window_ms) else none))
    × OnFile o row e files sd

exists-none : (o : Option (List ℕ)) → exists o ≡ false → o ≡ none
exists-none none h = refl
exists-none (some b) h = absurd (true≢false h)

-- A missing file stays missing.
pub NoSplinter-later :
    (o : SessionOptions) (row : Option SplinterRow) (e : Effective)
    (files files' : FilePath → Option (List ℕ))
    → ((p : FilePath) → files p ≡ none → files' p ≡ none)
    → NoSplinter o row e files
    → NoSplinter o row e files'
NoSplinter-later o row e files files' missing (inl h) = inl h
NoSplinter-later o row e files files' missing (inr (r, at, inl h)) = inr (r, at, inl h)
NoSplinter-later o row e files files' missing (inr (r, at, inr h)) =
    inr (r, at, inr (missing r.path h))

pub OnFile-later :
    (o : SessionOptions) (row : Option SplinterRow) (e : Effective)
    (files files' : FilePath → Option (List ℕ)) (sd : SessionDrive)
    → ((p : FilePath) → files p ≡ none → files' p ≡ none)
    → OnFile o row e files sd
    → OnFile o row e files' sd
OnFile-later o row e files files' sd missing (inl (a, b, c, d, lost)) =
    inl (a, b, c, d, NoSplinter-later o row e files files' missing lost)
OnFile-later o row e files files' sd missing (inr h) = inr h

module _ (o : SessionOptions) (drive : ℕ) (e : Effective) (was_mounted : Bool) where
  -- An attempt to open a drive: it is open on the mount, or the mount's file is missing.
  abbrev pub Attempt : Option SplinterRow → Synced → Bool × Synced → Type 0
  Attempt row st (true, st') =
      Kept drive st st'
      × ((sd : SessionDrive) × (st'.session.drives drive ≡ some sd)
          × OpenedOn o row e was_mounted st.session.now st'.session.files sd)
  Attempt row st (false, st') = Kept drive st st' × (st'.session.files e.filename ≡ none)

  -- An attempt after something else was done with the drive.
  pub Attempt-after :
      (row : Option SplinterRow) (st mid : Synced) (r : Bool × Synced)
      → Kept drive st mid
      → Attempt row mid r
      → Attempt row st r
  Attempt-after row st mid (true, st') k (k', (sd, at, (v, m, up, until, on))) = (
    Kept-trans drive st mid st' k k',
    (
      sd,
      at,
      (
        v,
        m,
        up,
        until ∙ ap (λ n. if was_mounted then some (n + swap_invalidate_window_ms) else none) k.0,
        on,
      ),
    ),
  )
  Attempt-after row st mid (false, st') k (k', missing) =
      (Kept-trans drive st mid st' k k', missing)

  open_file-Attempt :
      (path : FilePath) (writable : Bool) (scratch : Option FilePath) (dirty : Bool)
      (row : Option SplinterRow) (st : Synced)
      → (exists (st.session.files path) ≡ false → st.session.files e.filename ≡ none)
      → OnFile o row e st.session.files
          (make_drive path writable e was_mounted st.session.now scratch dirty)
      → Attempt row st
          (open_file drive (make_drive path writable e was_mounted st.session.now scratch dirty) st)
  open_file-Attempt path writable scratch dirty row st missing on =
      elim (Bool-cases (exists (st.session.files path))) [
        | inl h ↦ rw h (
          put_drive-Kept drive _ st,
          (_, drives-put_drive drive _ st.session, (refl, refl, refl, refl, on)),
        )
        | inr h ↦ rw h (Kept-refl drive st, missing h)
      ]

  open_fresh-Attempt :
      (row : Option SplinterRow) (st : Synced)
      → o.writes_master ≡ false
      → NoSplinter o row e st.session.files
      → Attempt row st (open_fresh drive e was_mounted st)
  open_fresh-Attempt row st client lost =
      open_file-Attempt e.filename false none false row st
        (exists-none (st.session.files e.filename)) (inl (refl, sym client, refl, refl, lost))

  reattach-Attempt :
      (row : Option SplinterRow) (st : Synced)
      → o.writes_master ≡ false
      → Attempt row st (reattach o drive e was_mounted row st)
  reattach-Attempt none st client = open_fresh-Attempt none st client (inl refl)
  reattach-Attempt (some row) st client =
      elim (Bool-cases (list_eq row.base_filename (o.basename e.filename))) [
        | inl h ↦ elim (Bool-cases (exists (st.session.files row.path))) [
          | inl k ↦
              let there =
                open_file-Attempt row.path true (some row.path) row.dirty (some row) st
                  (λ a. absurd (true≢false (sym k ∙ a)))
                  (inr (row, refl, h, refl, refl, refl, refl)) in
              rw h (
                subst
                  (λ b. Attempt (some row) st (
                    if b
                    then open_file drive
                        (make_drive row.path true e was_mounted st.session.now (some row.path)
                          row.dirty)
                        st
                    else open_fresh drive e was_mounted (delete_row drive st)))
                  (sym k) there)
          | inr k ↦
              rw (h, k)
                (Attempt-after (some row) st (delete_row drive st)
                  (open_fresh drive e was_mounted (delete_row drive st)) (delete_row-Kept drive st)
                  (open_fresh-Attempt (some row) (delete_row drive st) client
                    (inr (row, refl, inr (exists-none (st.session.files row.path) k)))))
        ]
        | inr h ↦
            let cut = in_session (unlink row.path) st in
            rw h (
              Attempt-after (some row) st (delete_row drive cut)
                (open_fresh drive e was_mounted (delete_row drive cut))
                (Kept-trans drive st cut (delete_row drive cut) (unlink-Kept drive row.path st)
                  (delete_row-Kept drive cut))
                (open_fresh-Attempt (some row) (delete_row drive cut) client
                  (inr (row, refl, inl h))))
      ]

  pub open_drive-Attempt :
      (st : Synced)
      → Attempt (considered o (st.rows drive)) st (open_drive o drive e was_mounted st)
  open_drive-Attempt st = elim (Bool-cases o.writes_master) [
    | inl h ↦ simp h (
        open_file-Attempt e.filename true none false none st
          (exists-none (st.session.files e.filename)) (inl (refl, sym h, refl, refl, inl refl)))
    | inr h ↦ simp h (reattach-Attempt (if o.persistent then st.rows drive else none) st h)
  ]

discard-Kept :
    (o : SessionOptions) (drive : ℕ) (scratch : Option FilePath) (s : Synced)
    → Kept drive s (in_session (discard o scratch) s)
discard-Kept o drive none s = Kept-refl drive s
discard-Kept o drive (some path) s = elim (Bool-cases o.persistent) [
  | inl h ↦ simp h (Kept-refl drive s)
  | inr h ↦ simp h (unlink-Kept drive path s)
]

-- A closed drive.
pub close_open-Kept :
    (o : SessionOptions) (drive : ℕ) (cur : SessionDrive) (s : Synced)
    → Kept drive s (in_session (close_open o drive (some cur)) s)
      × ((close_open o drive (some cur) s.session).drives drive ≡ none)
close_open-Kept o drive cur s = (
  Kept-trans drive s (in_session (discard o cur.scratch_path) s)
      (in_session (drop_drive drive) (in_session (discard o cur.scratch_path) s))
      (discard-Kept o drive cur.scratch_path s)
      (drop_drive-Kept drive (in_session (discard o cur.scratch_path) s)),
  drives-drop_drive drive (discard o cur.scratch_path s.session),
)
