-- ===== src/Fdc/Loop/Served.antt =====
-- src/server.ts: which rounds of the command loop serve a command.
use mathlib.Core.List.{append_assoc}
use bitsby.Prelude.{
  ℕ, zero, suc, ◌≡◌, refl, sym, ap, ◌∙◌, inl, inr, Bool-cases, Bool, true, false, not, ◌&&◌, ◌||◌,
  List, [], ◌∷◌, ◌++◌, if◌then◌else◌,
}
use bitsby.Fdc.Server.{DriveEngine, Line, serve_command}
use bitsby.Fdc.Loop.{
  FdcServer, Control, stops, pauses, resumes, toggles, call, call_all, Round, serve_round,
  command_loop, start,
}

-- Of the calls so far: whether one is a stop, and whether the last of pause and resume is a pause.
abbrev pub has_stop : List Control → Bool
has_stop [] = false
has_stop (stops ∷ cs) = true
has_stop (pauses ∷ cs) = has_stop cs
has_stop (resumes ∷ cs) = has_stop cs
has_stop (toggles ∷ cs) = has_stop cs

abbrev pub is_paused : Bool → List Control → Bool
is_paused p [] = p
is_paused p (stops ∷ cs) = is_paused p cs
is_paused p (pauses ∷ cs) = is_paused true cs
is_paused p (resumes ∷ cs) = is_paused false cs
is_paused p (toggles ∷ cs) = is_paused p cs

abbrev pub all_calls : List Round → List Control
all_calls [] = []
all_calls (r ∷ rs) = r.calls ++ all_calls rs

abbrev pub count : Bool → ℕ → ℕ
count true n = suc n
count false n = n

-- The rounds that begin with an open port, no stop before and no pause in force.
abbrev pub served_rounds : Bool → List Control → List Round → ℕ
served_rounds p before [] = 0
served_rounds p before (r ∷ rs) =
    count (r.is_open && (not (is_paused p before) && not (has_stop before)))
      (served_rounds p (before ++ r.calls) rs)

has_stop-append : (xs ys : List Control) → has_stop (xs ++ ys) ≡ (has_stop xs || has_stop ys)
has_stop-append [] ys = refl
has_stop-append (stops ∷ xs) ys = refl
has_stop-append (pauses ∷ xs) ys = has_stop-append xs ys
has_stop-append (resumes ∷ xs) ys = has_stop-append xs ys
has_stop-append (toggles ∷ xs) ys = has_stop-append xs ys

is_paused-append :
    (p : Bool) (xs ys : List Control) → is_paused p (xs ++ ys) ≡ is_paused (is_paused p xs) ys
is_paused-append p [] ys = refl
is_paused-append p (stops ∷ xs) ys = is_paused-append p xs ys
is_paused-append p (pauses ∷ xs) ys = is_paused-append true xs ys
is_paused-append p (resumes ∷ xs) ys = is_paused-append false xs ys
is_paused-append p (toggles ∷ xs) ys = is_paused-append p xs ys

stopped-running :
    (cs : List Control) (s : FdcServer) → s.running ≡ false → (call_all cs s).running ≡ false
stopped-running [] s h = h
stopped-running (stops ∷ cs) s h = stopped-running cs (call stops s) refl
stopped-running (pauses ∷ cs) s h = stopped-running cs (call pauses s) h
stopped-running (resumes ∷ cs) s h = stopped-running cs (call resumes s) h
stopped-running (toggles ∷ cs) s h = stopped-running cs (call toggles s) h

call_all-running :
    (cs : List Control) (s : FdcServer)
    → s.running ≡ true
    → (call_all cs s).running ≡ not (has_stop cs)
call_all-running [] s h = h
call_all-running (stops ∷ cs) s h = stopped-running cs (call stops s) refl
call_all-running (pauses ∷ cs) s h = call_all-running cs (call pauses s) h
call_all-running (resumes ∷ cs) s h = call_all-running cs (call resumes s) h
call_all-running (toggles ∷ cs) s h = call_all-running cs (call toggles s) h

call_all-paused :
    (cs : List Control) (s : FdcServer) → (call_all cs s).paused ≡ is_paused s.paused cs
call_all-paused [] s = refl
call_all-paused (stops ∷ cs) s = call_all-paused cs (call stops s)
call_all-paused (pauses ∷ cs) s = call_all-paused cs (call pauses s)
call_all-paused (resumes ∷ cs) s = call_all-paused cs (call resumes s)
call_all-paused (toggles ∷ cs) s = call_all-paused cs (call toggles s)

not-not : (b : Bool) → not (not b) ≡ (b || false)
not-not false = refl
not-not true = refl

no_stop : (o p : Bool) → (o && (not p && not true)) ≡ false
no_stop false p = refl
no_stop true false = refl
no_stop true true = refl

-- After a stop, no round is counted.
served_rounds-stopped :
    (p : Bool) (before : List Control) (rs : List Round)
    → has_stop before ≡ true
    → served_rounds p before rs ≡ 0
served_rounds-stopped p before [] h = refl
served_rounds-stopped p before (r ∷ rs) h =
    let later : has_stop (before ++ r.calls) ≡ true =
      has_stop-append before r.calls ∙ (rw h refl) in
    rw (h, no_stop r.is_open (is_paused p before))
      (served_rounds-stopped p (before ++ r.calls) rs later)

module _ {S : Type 0} (engine : DriveEngine S) where
  abbrev pub times : ℕ → Line S → Line S
  times zero l = l
  times (suc n) l = times n (serve_command engine l)

  serve_round-running :
      (p o : Bool) (s : FdcServer) (l : Line S) → (serve_round engine p o s l).0.running ≡ s.running
  serve_round-running true o s l = refl
  serve_round-running false false s l = refl
  serve_round-running false true s l = refl

  serve_round-paused :
      (p o : Bool) (s : FdcServer) (l : Line S) → (serve_round engine p o s l).0.paused ≡ s.paused
  serve_round-paused true o s l = refl
  serve_round-paused false false s l = refl
  serve_round-paused false true s l = refl

  serve_round-times :
      (p o : Bool) (s : FdcServer) (l : Line S) (n : ℕ)
      → times n (serve_round engine p o s l).1 ≡ times (count (o && (not p && not false)) n) l
  serve_round-times true true s l n = refl
  serve_round-times true false s l n = refl
  serve_round-times false false s l n = refl
  serve_round-times false true s l n = refl

  command_loop-stopped :
      (rs : List Round) (s : FdcServer) (l : Line S)
      → s.running ≡ false
      → command_loop engine rs s l ≡ (true, (s, l))
  unfolding command_loop
  command_loop-stopped [] s l h = rw h refl
  command_loop-stopped (r ∷ rs) s l h = rw h refl

  command_loop-running :
      (r : Round) (rs : List Round) (s : FdcServer) (l : Line S)
      → s.running ≡ true
      → command_loop engine (r ∷ rs) s l ≡ (
          let served = serve_round engine s.paused r.is_open s l in
          command_loop engine rs (call_all r.calls served.0) served.1)
  unfolding command_loop
  command_loop-running r rs s l h =
      let served = serve_round engine s.paused r.is_open s l in
      let rest = command_loop engine rs (call_all r.calls served.0) served.1 in
      ap (λ b. if b then rest else (true, (s, l))) h

  abbrev Serves : Bool → List Control → List Round → Line S → Bool × (FdcServer × Line S) → Type 0
  Serves p before rs l result =
      (result.0 ≡ has_stop (before ++ all_calls rs))
      × (result.1.1 ≡ times (served_rounds p before rs) l)

  stopped-Serves :
      (p : Bool) (before : List Control) (rs : List Round) (s : FdcServer) (l : Line S)
      → has_stop before ≡ true
      → s.running ≡ false
      → Serves p before rs l (command_loop engine rs s l)
  stopped-Serves p before rs s l h off =
      rw
        (
          command_loop-stopped rs s l off,
          served_rounds-stopped p before rs h,
          has_stop-append before (all_calls rs),
          h,
        )
        (refl, refl)

  command_loop-Serves :
      (p : Bool) (before : List Control) (rs : List Round) (s : FdcServer) (l : Line S)
      → s.running ≡ not (has_stop before)
      → s.paused ≡ is_paused p before
      → Serves p before rs l (command_loop engine rs s l)
  unfolding command_loop
  command_loop-Serves p before [] s l on halted =
      (ap not on ∙ not-not (has_stop before) ∙ sym (has_stop-append before []), refl)
  command_loop-Serves p before (r ∷ rs) s l on halted = elim (Bool-cases (has_stop before)) [
    | inl h ↦ stopped-Serves p before (r ∷ rs) s l h (rw h at on)
    | inr h ↦
        let running : s.running ≡ true = rw h at on in
        let served = serve_round engine s.paused r.is_open s l in
        let s' = call_all r.calls served.0 in
        let on' : s'.running ≡ not (has_stop (before ++ r.calls)) =
          call_all-running r.calls served.0 (serve_round-running s.paused r.is_open s l ∙ running)
          ∙ ap not (sym (has_stop-append before r.calls ∙ (rw h refl))) in
        let halted' : s'.paused ≡ is_paused p (before ++ r.calls) =
          call_all-paused r.calls served.0
          ∙ ap (λ b. is_paused b r.calls) (serve_round-paused s.paused r.is_open s l ∙ halted)
          ∙ sym (is_paused-append p before r.calls) in
        let rest = command_loop-Serves p (before ++ r.calls) rs s' served.1 on' halted' in
        let n = served_rounds p (before ++ r.calls) rs in
        rw (command_loop-running r rs s l running, h, sym halted)
          (
            rest.0 ∙ ap has_stop (append_assoc before r.calls (all_calls rs)),
            rest.1 ∙ serve_round-times s.paused r.is_open s l n,
          )
  ]

  -- A started server ends its loop just if a stop is called. However its commands fail, it serves
  -- one command in each round that begins with an open port, after no stop, and with no pause in
  -- force, a pause from before the start included; the other rounds leave the line as it is.
  pub start-served :
      (rounds : List Round) (s : FdcServer) (l : Line S)
      → ((start engine rounds s l).0 ≡ has_stop (all_calls rounds))
        × ((start engine rounds s l).1.1 ≡ times (served_rounds s.paused [] rounds) l)
  unfolding start
  start-served rounds s l =
      command_loop-Serves s.paused [] rounds (record s { running = true }) l refl refl
