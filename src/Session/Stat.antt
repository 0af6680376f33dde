-- ===== src/Session/Stat.antt =====
-- src/server.ts, src/drive-session.ts: STAT, as a session answers it.
use bitsby.Prelude.{
  ℕ, zero, suc, ◌+◌, ◌^◌, ◌<◌, ◌≤◌, ◌≡◌, refl, ap, ◌∙◌, inl, inr, Bool, true, false, not, ◌&&◌,
  Option, none, some, List, [], ◌∷◌, ◌++◌, ◌==◌, ltb, if◌then◌else◌, Bool-cases, arith,
}
use bitsby.Fdc.Protocol.{CommandResponseBlock, to_buffer, lsb, msb, max_drives}
use bitsby.Fdc.Server.{DriveEngine, Outcome, returned, Line, note_stat, clear_heads, handle_stat}
use bitsby.Fdc.Server.Write.{clear_line}
use bitsby.Fdc.Server.Status.{bit_at, handle_stat-status}
use bitsby.Session.State.{
  FilePath, SessionDrive, DriveSession, mounted_in, until_in, before, is_mounted, is_in_swap_window,
}
use bitsby.Session.Engine.{update_drive, set_hdld, set_track, session_engine}

abbrev on_drive : (SessionDrive → SessionDrive) → Option SessionDrive → Option SessionDrive
on_drive f none = none
on_drive f (some sd) = some (f sd)

update_found :
    (k d : ℕ) (f : SessionDrive → SessionDrive) (x : Option SessionDrive) (s : DriveSession)
    → s.drives k ≡ x
    → (update_drive k f x s).drives d ≡ (if d == k then on_drive f (s.drives d) else s.drives d)
update_found k d f none s at = elim (Bool-cases (d == k)) [
  | inl e ↦
      let same : d ≡ k = ground arith in
      let gone : s.drives d ≡ none = ap s.drives same ∙ at in rw (e, gone) refl
  | inr e ↦ rw e refl
]
update_found k d f (some sd) s at = elim (Bool-cases (d == k)) [
  | inl e ↦
      let same : d ≡ k = ground arith in
      let here : s.drives d ≡ some sd = ap s.drives same ∙ at in rw (e, here) refl
  | inr e ↦ rw e refl
]

update_now :
    (k : ℕ) (f : SessionDrive → SessionDrive) (x : Option SessionDrive) (s : DriveSession)
    → (update_drive k f x s).now ≡ s.now
update_now k f none s = refl
update_now k f (some sd) s = refl

-- The head and the track of a drive once a STAT command has been noted: it loads or unloads the
-- head of the drive that it names, by its high byte, and sets the track of that drive; where it
-- names none of the sixteen, it unloads all heads.
abbrev pub noted_drive : CommandResponseBlock → ℕ → Option SessionDrive → Option SessionDrive
noted_drive cmd d none = none
noted_drive cmd d (some sd) = some (
    if ltb (lsb cmd.param1) 16
    then (if d == lsb cmd.param1
        then record sd { hdld = ltb 0 (msb cmd.param1); track = cmd.param2 }
        else sd)
    else record sd { hdld = false })

mounted-noted :
    (cmd : CommandResponseBlock) (d : ℕ) (x : Option SessionDrive)
    → mounted_in (noted_drive cmd d x) ≡ mounted_in x
mounted-noted cmd d none = refl
mounted-noted cmd d (some sd) = elim (Bool-cases (ltb (lsb cmd.param1) 16)) [
  | inl e ↦ elim (Bool-cases (d == lsb cmd.param1)) [
    | inl e' ↦ simp (e, e') refl
    | inr e' ↦ simp (e, e') refl
  ]
  | inr e ↦ simp e refl
]

until-noted :
    (cmd : CommandResponseBlock) (d : ℕ) (x : Option SessionDrive)
    → until_in (noted_drive cmd d x) ≡ until_in x
until-noted cmd d none = refl
until-noted cmd d (some sd) = elim (Bool-cases (ltb (lsb cmd.param1) 16)) [
  | inl e ↦ elim (Bool-cases (d == lsb cmd.param1)) [
    | inl e' ↦ simp (e, e') refl
    | inr e' ↦ simp (e, e') refl
  ]
  | inr e ↦ simp e refl
]

module _ (writes_master : Bool) (splinter_path : FilePath → ℕ → FilePath)
    (cmd : CommandResponseBlock) where
  abbrev engine : DriveEngine DriveSession
  engine = session_engine writes_master splinter_path

  clear_heads-below :
      (n i d : ℕ) (s : DriveSession) → d < i → (clear_heads engine n i s).drives d ≡ s.drives d
  clear_heads-below zero i d s h = refl
  clear_heads-below (suc n) i d s h =
      let other : (d == i) ≡ false = ground arith in
      clear_heads-below n (i + 1) d (set_hdld i false s) (omega arith)
      ∙ update_found i d (λ sd. record sd { hdld = false }) (s.drives i) s refl
      ∙ rw other refl

  clear_heads-now : (n i : ℕ) (s : DriveSession) → (clear_heads engine n i s).now ≡ s.now
  clear_heads-now zero i s = refl
  clear_heads-now (suc n) i s =
      clear_heads-now n (i + 1) (set_hdld i false s)
      ∙ update_now i (λ sd. record sd { hdld = false }) (s.drives i) s

  clear_heads-drives :
      (n i d : ℕ) (s : DriveSession)
      → i ≤ d
      → d < i + n
      → (clear_heads engine n i s).drives d
        ≡ on_drive (λ sd. record sd { hdld = false }) (s.drives d)
  clear_heads-drives zero i d s le lt = absurd (omega arith)
  clear_heads-drives (suc n) i d s le lt =
      let one = update_found i d (λ sd. record sd { hdld = false }) (s.drives i) s refl in
      elim (Bool-cases (d == i)) [
        | inl e ↦
            clear_heads-below n (i + 1) d (set_hdld i false s) (ground arith) ∙ one ∙ rw e refl
        | inr e ↦
            let kept : (set_hdld i false s).drives d ≡ s.drives d = one ∙ (rw e refl) in
            clear_heads-drives n (i + 1) d (set_hdld i false s) (ground arith) (omega arith)
            ∙ ap (on_drive (λ sd. record sd { hdld = false })) kept
      ]

  loaded :
      (d : ℕ) (hdld : Bool) (s : DriveSession) (x : Option SessionDrive)
      → ltb (lsb cmd.param1) 16 ≡ true
      → hdld ≡ ltb 0 (msb cmd.param1)
      → (if d == lsb cmd.param1
          then on_drive
              (λ sd. record sd { track = cmd.param2 })
              (if d == lsb cmd.param1 then on_drive (λ sd. record sd { hdld = hdld }) x else x)
          else (if d == lsb cmd.param1 then on_drive (λ sd. record sd { hdld = hdld }) x else x))
        ≡ noted_drive cmd d x
  loaded d hdld s none valid same = elim (Bool-cases (d == lsb cmd.param1)) [
    | inl e ↦ rw e refl
    | inr e ↦ rw e refl
  ]
  loaded d hdld s (some sd) valid same = elim (Bool-cases (d == lsb cmd.param1)) [
    | inl e ↦ rw (e, valid, same) refl
    | inr e ↦ rw (e, valid) refl
  ]

  note_named :
      (d : ℕ) (hdld : Bool) (s : DriveSession)
      → ltb (lsb cmd.param1) 16 ≡ true
      → hdld ≡ ltb 0 (msb cmd.param1)
      → (set_track (lsb cmd.param1) cmd.param2 (set_hdld (lsb cmd.param1) hdld s)).drives d
        ≡ noted_drive cmd d (s.drives d)
  note_named d hdld s valid same =
      let k = lsb cmd.param1 in
      let one = update_found k d (λ sd. record sd { hdld = hdld }) (s.drives k) s refl in
      let t = set_hdld k hdld s in
      let two = update_found k d (λ sd. record sd { track = cmd.param2 }) (t.drives k) t refl in
      two
      ∙ ap (λ y. if d == k then on_drive (λ sd. record sd { track = cmd.param2 }) y else y) one
      ∙ loaded d hdld s (s.drives d) valid same

  note_stat-drives :
      (d : ℕ) (s : DriveSession)
      → d < max_drives
      → (note_stat engine cmd s).drives d ≡ noted_drive cmd d (s.drives d)
  note_stat-drives d s below = elim (Bool-cases (ltb (lsb cmd.param1) max_drives)) [
    | inl e ↦ rw e (note_named d (not (msb cmd.param1 == 0)) s e (ground arith))
    | inr e ↦
        rw e (clear_heads-drives max_drives 0 d s (omega arith) below ∙ unloaded (s.drives d) e)
  ]
    where
      unloaded :
          (x : Option SessionDrive)
          → ltb (lsb cmd.param1) 16 ≡ false
          → on_drive (λ sd. record sd { hdld = false }) x ≡ noted_drive cmd d x
      unloaded none e = refl
      unloaded (some sd) e = rw e refl

  note_stat-now : (s : DriveSession) → (note_stat engine cmd s).now ≡ s.now
  note_stat-now s = elim (Bool-cases (ltb (lsb cmd.param1) max_drives)) [
    | inl e ↦
        let k = lsb cmd.param1 in
        let t = set_hdld k (not (msb cmd.param1 == 0)) s in
        rw e (
          update_now k (λ sd. record sd { track = cmd.param2 }) (t.drives k) t
          ∙ update_now k (λ sd. record sd { hdld = not (msb cmd.param1 == 0) }) (s.drives k) s)
    | inr e ↦ rw e (clear_heads-now max_drives 0 s)
  ]

  -- A session answers a STAT command, where the send succeeds, by the block that was received with
  -- another second parameter, a 16-bit word in which the bit of each of the sixteen drives is set
  -- exactly if the drive is mounted and its swap window is over. If the command names one of the
  -- sixteen, the drive of that number, if it is open, then has its head loaded or not, by the high
  -- byte of the first parameter, and the track of the second, and the others are as before;
  -- otherwise the heads of all are unloaded.
  pub handle_stat-noted :
      (s : DriveSession) (log : List (List ℕ)) (receives : List (Option (List ℕ))) (d : ℕ)
      → d < max_drives
      → let result : Outcome × Line DriveSession =
          handle_stat
            (session_engine writes_master splinter_path)
            cmd
            (clear_line s log receives) in
        (word : ℕ) × (result.0 ≡ returned)
        × (result.1.sent ≡ log ++ (to_buffer (record cmd { param2 = word }) ∷ []))
        × (word < 2 ^ 16)
        × (bit_at word d ≡ (
            if mounted_in (s.drives d) && not (before s.now (until_in (s.drives d))) then 1 else 0))
        × (result.1.engine.drives d ≡ noted_drive cmd d (s.drives d))
  unfolding is_mounted is_in_swap_window
  handle_stat-noted s log receives d below =
      let (word, ran, small, bit) = handle_stat-status engine cmd s log receives d below in
      let at = note_stat-drives d s below in
      let mounted = ap mounted_in at ∙ mounted-noted cmd d (s.drives d) in
      let until = ap until_in at ∙ until-noted cmd d (s.drives d) in
      (
        word,
        ap (λ x. x.0) ran,
        ap (λ x. x.1.sent) ran,
        small,
        bit
            ∙ ap (λ b. if b && not (is_in_swap_window (note_stat engine cmd s) d) then 1 else 0)
                mounted
            ∙ ap
                (λ b.
                  if mounted_in (s.drives d)
                    && not (before b (until_in ((note_stat engine cmd s).drives d)))
                  then 1
                  else 0)
                (note_stat-now s)
            ∙ ap (λ u. if mounted_in (s.drives d) && not (before s.now u) then 1 else 0) until,
        ap (λ x. x.1.engine.drives d) ran ∙ at,
      )
