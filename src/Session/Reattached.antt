-- ===== src/Session/Reattached.antt =====
-- src/drive-session.ts: the persistent splinter of a client is taken up again.
use bitsby.Prelude.{
  ℕ, ◌≤◌, ◌≡◌, refl, sym, ap, ◌∙◌, true, false, none, some, List, ◌==◌, list_eq, list_eq_refl,
  if◌then◌else◌, length, take, arith,
}
use bitsby.Session.State.{FilePath, SessionDrive, DriveSession, put_drive}
use bitsby.Session.Track.{read_track, write_track}
use bitsby.Session.CopyOnWrite.{
  Readable, read_track-open, written, written-drive, written-file, written-same_track,
}
use bitsby.Session.Isolation.{forked, after_fork, write_track-fresh}
use bitsby.Session.Mount.{
  SplinterRow, Synced, SessionOptions, Effective, drop_drive, in_session, exists, resolve_effective,
  make_drive, open_file, open_fresh, reattach, delete_row, unlink, close_open, close_drive,
  catch_open, sync_mount, sync_drive, upsert_row, scratch_in, record_fork, write_synced,
}
use bitsby.Session.Opened.{drives-drop_drive}

module _ (o : SessionOptions) (splinter_path : FilePath → ℕ → FilePath) (drive track size : ℕ)
    (bytes m : List ℕ) (sd : SessionDrive) (e : Effective) (st : Synced) where
  abbrev splinter : FilePath
  splinter = splinter_path sd.master drive

  abbrev fork : SessionDrive
  fork = forked splinter_path drive track size bytes sd st.session

  abbrev after : DriveSession
  after =
      written drive track size bytes fork
        (after_fork splinter_path drive track size bytes sd st.session m)

  abbrev row : SplinterRow
  row = record { base_filename = o.basename sd.master; path = splinter; dirty = true }

  abbrev wrote : Synced
  wrote = upsert_row drive row (record st { session = after })

  abbrev closed : Synced
  closed = in_session (drop_drive drive) wrote

  abbrev again : SessionDrive
  again = make_drive splinter true e false after.now (some splinter) true

  write_synced-wrote :
      o.writes_master ≡ false
      → o.persistent ≡ true
      → st.session.drives drive ≡ some sd
      → Readable sd size
      → size ≤ length bytes
      → sd.scratch_path ≡ none
      → st.session.files sd.master ≡ some m
      → write_synced o splinter_path drive track size bytes st ≡ (some size, wrote)
  unfolding write_synced
  write_synced-wrote client keeps at readable enough unforked there =
      let at_fork =
        written-drive drive track size bytes fork
          (after_fork splinter_path drive track size bytes sd st.session m) in
      let client_write =
        ap (λ b. write_track b splinter_path drive track size bytes st.session) client
        ∙ write_track-fresh splinter_path drive track size bytes sd st.session m at readable enough
            unforked there in
      ap
        (λ w. (
          w.0,
          record_fork o drive (scratch_in (st.session.drives drive)) (w.1.drives drive)
              (record st { session = w.1 }),
        ))
        client_write
      ∙ ap
          (λ x. (
            some size,
            record_fork o drive (scratch_in x) (after.drives drive) (record st { session = after }),
          ))
          at
      ∙ ap
          (λ x.
            (some size, record_fork o drive x (after.drives drive) (record st { session = after })))
          unforked
      ∙ ap (λ x. (some size, record_fork o drive none x (record st { session = after }))) at_fork
      ∙ ap (λ b. (some size, if b then wrote else record st { session = after })) keeps

  close_drive-wrote : o.persistent ≡ true → close_drive o drive wrote ≡ closed
  unfolding close_drive
  close_drive-wrote keeps =
      let at_fork =
        written-drive drive track size bytes fork
          (after_fork splinter_path drive track size bytes sd st.session m) in
      ap (λ x. in_session (close_open o drive x) wrote) at_fork
      ∙ ap
          (λ b. record wrote {
            session = drop_drive drive (if b then after else unlink splinter after);
          })
          keeps

  sync_drive-closed :
      o.writes_master ≡ false
      → o.persistent ≡ true
      → resolve_effective o drive ≡ some e
      → e.filename ≡ sd.master
      → sync_drive o drive closed ≡ in_session (put_drive drive again) closed
  sync_drive-closed client keeps mount same =
      let row_at : closed.rows drive ≡ some row =
        let here : (drive == drive) ≡ true = ground arith in rw here refl in
      let based : list_eq (o.basename sd.master) (o.basename e.filename) ≡ true =
        ap (λ p. list_eq (o.basename sd.master) (o.basename p)) same
        ∙ list_eq_refl (o.basename sd.master) in
      let there : exists (closed.session.files splinter) ≡ true = ap exists (
        written-file drive track size bytes fork
          (after_fork splinter_path drive track size bytes sd st.session m)) in
      let lost = open_fresh drive e false (delete_row drive closed) in
      ap (λ x. sync_mount o drive x (closed.session.drives drive) closed) mount
      ∙ ap (λ x. sync_mount o drive (some e) x closed) (drives-drop_drive drive after)
      ∙ ap
          (λ b. catch_open drive (
            if b
            then open_file drive (make_drive e.filename true e false after.now none false) closed
            else reattach o drive e false (if o.persistent then closed.rows drive else none)
                closed))
          client
      ∙ ap
          (λ b.
            catch_open drive
              (reattach o drive e false (if b then closed.rows drive else none) closed))
          keeps
      ∙ ap (λ x. catch_open drive (reattach o drive e false x closed)) row_at
      ∙ ap
          (λ b. catch_open drive (
            if b
            then (if exists (closed.session.files splinter)
                then open_file drive again closed
                else lost)
            else open_fresh drive e false (delete_row drive (in_session (unlink splinter) closed))))
          based
      ∙ ap (λ b. catch_open drive (if b then open_file drive again closed else lost)) there
      ∙ ap
          (λ b.
            catch_open drive
              (if b then (true, in_session (put_drive drive again) closed) else (false, closed)))
          there

  again-read :
      Readable sd size
      → size ≤ length bytes
      → (read_track drive track size (in_session (put_drive drive again) closed).session).0
        ≡ some (take size bytes)
  again-read readable enough =
      let forking = after_fork splinter_path drive track size bytes sd st.session m in
      let held = record fork { track = track; last_io = some st.session.now; dirty = true } in
      let reopened = (in_session (put_drive drive again) closed).session in
      let at : reopened.drives drive ≡ some again =
        let here : (drive == drive) ≡ true = ground arith in rw here refl in
      read_track-open drive track size again reopened at (refl, readable.1, readable.2)
      ∙ sym (
          read_track-open drive track size held after
            (written-drive drive track size bytes fork forking) readable)
      ∙ written-same_track drive track size bytes fork forking readable enough

  -- A persistent session that does not own the masters writes a track to a drive that has no
  -- splinter yet, whose master file is there; the drive is mounted, the length is positive and
  -- within the limit of a track, and the data is all there. Then the write succeeds; and where the
  -- drive is closed afterwards and a round of `sync` handles it, its mount being on the same file,
  -- the drive is open again on the splinter, and reading the track gives the bytes written.
  pub write_synced-reattached :
      o.writes_master ≡ false
      → o.persistent ≡ true
      → st.session.drives drive ≡ some sd
      → Readable sd size
      → size ≤ length bytes
      → sd.scratch_path ≡ none
      → st.session.files sd.master ≡ some m
      → resolve_effective o drive ≡ some e
      → e.filename ≡ sd.master
      → let w = write_synced o splinter_path drive track size bytes st in
        let back = (sync_drive o drive (close_drive o drive w.1)).session in
        (w.0 ≡ some size)
        × ((again' : SessionDrive) × (back.drives drive ≡ some again')
            × (again'.handle_path ≡ splinter_path sd.master drive)
            × (again'.scratch_path ≡ some (splinter_path sd.master drive)))
        × ((read_track drive track size back).0 ≡ some (take size bytes))
  write_synced-reattached client keeps at readable enough unforked there mount same =
      let wrote_it = write_synced-wrote client keeps at readable enough unforked there in
      let back : sync_drive o drive
            (close_drive o drive (write_synced o splinter_path drive track size bytes st).1)
          ≡ in_session (put_drive drive again) closed =
        ap (λ x. sync_drive o drive (close_drive o drive x.1)) wrote_it
        ∙ ap (sync_drive o drive) (close_drive-wrote keeps)
        ∙ sync_drive-closed client keeps mount same in
      let here : (drive == drive) ≡ true = ground arith in
      (
        ap (λ x. x.0) wrote_it,
        (again, ap (λ x. x.session.drives drive) back ∙ (rw here refl), refl, refl),
        ap (λ x. (read_track drive track size x.session).0) back ∙ again-read readable enough,
      )
