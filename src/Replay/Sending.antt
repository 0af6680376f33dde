-- ===== src/Replay/Sending.antt =====
-- src/replay-engine.ts: the loop of `replay`, round by round.
use mathlib.Core.List.{append_assoc, append-nil}
use mathlib.Core.Bool.{true≢false}
use mathlib.Core.Option.{some-injective, none-ne-some}
use bitsby.Prelude.{
  ℕ, zero, suc, ◌+◌, ◌-◌, ◌≤◌, ◌<◌, min, max, ◌≡◌, refl, sym, ap, ◌∙◌, inl, inr, Bool, true, false,
  Option, none, some, List, [], ◌∷◌, ◌++◌, ◌==◌, ltb, ltb→lt, length, take, subarray, Bool-cases,
  arith, if◌then◌else◌,
}
use bitsby.Replay.Events.{running, Event, written, drained, emitted, ReplayOptions, Round, Run}
use bitsby.Replay.Engine.{
  chunk_size_of, before, progress, fail, delay_if, due, emit_from, pause_from, write_from,
  look_from, run_from, inter_byte, inter_line, last_emitted,
}
use bitsby.Replay.Sent.{
  bytes_written, bytes_written-append, last_emitted-append, chunk_end-bounds, take-subarray,
  chunk_size-positive, Quiet, Sends, last_emitted-any,
}

module _ (percent : ℕ → ℕ → ℕ) (pace : ℕ → ℕ) (rounds : ℕ → Round) (options : ReplayOptions)
    (file : List ℕ) where
  before-Sends :
      (events : List Event) (offset sent : ℕ) (o : Option Run)
      → take offset file ++ bytes_written events ≡ take sent file
      → Sends rounds file sent o
      → Sends rounds file offset (before events o)
  before-Sends events offset sent none e (r, at, _) = absurd (none-ne-some r at)
  before-Sends events offset sent (some r') e (r, at, (bytes, within, (p, last, closes), whole)) =
      let same : r' ≡ r = some-injective r' r at in
      (
        record r { events = events ++ r.events },
        ap (λ x. before events (some x)) same,
        (
          ap (λ b. take offset file ++ b) (bytes_written-append events r.events)
              ∙ sym
                  (append_assoc (take offset file) (bytes_written events) (bytes_written r.events))
              ∙ ap (λ b. b ++ bytes_written r.events) e
              ∙ bytes,
          within,
          (
            p,
            last_emitted-append none events r.events
                ∙ last_emitted-any (last_emitted none events) r.events p last,
            closes,
          ),
          whole,
        ),
      )

  fail-Sends :
      (offset : ℕ) (flag : Bool) (e : List ℕ)
      → offset ≤ length file
      → ¬ Quiet rounds
      → Sends rounds file offset
          (some (fail percent pace rounds options offset (length file) flag e))
  fail-Sends offset flag e le noise = (
    fail percent pace rounds options offset (length file) flag e,
    refl,
    (
      append-nil (take offset file),
      le,
      (_, refl, (refl, inr (inr (refl, (e, refl))))),
      λ quiet. absurd (noise quiet),
    ),
  )

  bytes-delay_if : (ms : ℕ) → bytes_written (delay_if percent pace rounds options ms) ≡ []
  bytes-delay_if zero = refl
  bytes-delay_if (suc ms) = refl

  bytes-delay_or :
      (b : Bool) (ms : ℕ)
      → bytes_written (if b then delay_if percent pace rounds options ms else []) ≡ []
  bytes-delay_or true ms = bytes-delay_if ms
  bytes-delay_or false ms = refl

  silent-Sends :
      (events : List Event) (offset : ℕ) (o : Option Run)
      → bytes_written events ≡ []
      → Sends rounds file offset o
      → Sends rounds file offset (before events o)
  silent-Sends events offset o silent s =
      before-Sends events offset offset o
        (ap (λ b. take offset file ++ b) silent ∙ append-nil (take offset file)) s

  module _ (continue : ℕ → Option ℕ → ℕ → Option Run) (offset : ℕ)
      (goes_on : (sent : ℕ) (last : Option ℕ) (time : ℕ)
        → offset < sent
        → sent ≤ length file
        → Sends rounds file sent (continue sent last time)) where
    emit_from-Sends :
        (now sent : ℕ) (last : Option ℕ) (time : ℕ)
        → offset < sent
        → sent ≤ length file
        → Sends rounds file sent
            (emit_from percent pace rounds options file continue now sent last time)
    emit_from-Sends now sent last time lt le =
        elim (Bool-cases
          (due percent pace rounds options file (percent sent (length file)) last now time)) [
            | inl h ↦
                rw (emit_from, h)
                  (silent-Sends
                    (emitted (
                        progress percent pace rounds options running sent (length file)
                          (percent sent (length file)) none)
                      ∷ [])
                    sent (continue sent (some (percent sent (length file))) now) refl
                    (goes_on sent (some (percent sent (length file))) now lt le))
            | inr h ↦ rw (emit_from, h) (goes_on sent last time lt le)
          ]

    pause_from-Sends :
        (hit : Bool) (k : ℕ) (flag : Bool) (sent written_length : ℕ) (last : Option ℕ) (time : ℕ)
        → offset < sent
        → sent ≤ length file
        → Sends rounds file sent (
            pause_from percent pace rounds options file
              (λ at.
                emit_from percent pace rounds options file continue (rounds k).now at last time)
              hit
              (rounds k)
              flag
              sent
              written_length)
    pause_from-Sends false k flag sent written_length last time lt le =
        silent-Sends
          (if inter_byte percent pace rounds options file == 0
            then delay_if percent pace rounds options (pace written_length)
            else [])
          sent (emit_from percent pace rounds options file continue (rounds k).now sent last time)
          (bytes-delay_or (inter_byte percent pace rounds options file == 0) (pace written_length))
          (emit_from-Sends (rounds k).now sent last time lt le)
    pause_from-Sends true k flag sent written_length last time lt le =
        on (rounds k).drain_error refl
      where
        on :
            (d : Option (List ℕ))
            → (rounds k).drain_error ≡ d
            → Sends rounds file sent (
                pause_from percent pace rounds options file
                  (λ at.
                    emit_from percent pace rounds options file continue (rounds k).now at last time)
                  true
                  (rounds k)
                  flag
                  sent
                  written_length)
        on none h =
            rw (pause_from, h)
              (silent-Sends
                (drained (max (inter_line percent pace rounds options file) 100)
                  ∷ delay_if percent pace rounds options
                      (inter_line percent pace rounds options file - (rounds k).drain_elapsed))
                sent
                (emit_from percent pace rounds options file continue (rounds k).now sent last time)
                (bytes-delay_if
                  (inter_line percent pace rounds options file - (rounds k).drain_elapsed))
                (emit_from-Sends (rounds k).now sent last time lt le))
        on (some e) h =
            rw (pause_from, h)
              (fail-Sends sent flag e le (λ quiet. none-ne-some e (sym (quiet k).2 ∙ h)))

    write_from-Sends :
        (k : ℕ) (flag : Bool) (last : Option ℕ) (time : ℕ) (chunk : ℕ × Bool)
        → offset < chunk.0
        → chunk.0 ≤ length file
        → Sends rounds file offset (
            write_from percent pace rounds options file continue
              (rounds k)
              flag
              offset
              last
              time
              chunk)
    write_from-Sends k flag last time (sent, hit) lt le = on (rounds k).write_error refl
      where
        on :
            (d : Option (List ℕ))
            → (rounds k).write_error ≡ d
            → Sends rounds file offset (
                write_from percent pace rounds options file continue
                  (rounds k)
                  flag
                  offset
                  last
                  time
                  (sent, hit))
        on none h =
            rw (write_from, h)
              (before-Sends
                (written (subarray file offset sent)
                  ∷ delay_if percent pace rounds options
                      (inter_byte percent pace rounds options file))
                offset sent
                (pause_from percent pace rounds options file
                  (λ at.
                    emit_from percent pace rounds options file continue (rounds k).now at last time)
                  hit (rounds k) flag sent (sent - offset))
                (ap (λ b. take offset file ++ (subarray file offset sent ++ b))
                    (bytes-delay_if (inter_byte percent pace rounds options file))
                  ∙ ap (λ b. take offset file ++ b) (append-nil (subarray file offset sent))
                  ∙ take-subarray file offset sent (omega arith))
                (pause_from-Sends hit k flag sent (sent - offset) last time lt le))
        on (some e) h =
            rw (write_from, h)
              (fail-Sends offset flag e (omega arith)
                (λ quiet. none-ne-some e (sym (quiet k).1 ∙ h)))

  pub run_from-Sends :
      (fuel k offset : ℕ) (last : Option ℕ) (time : ℕ)
      → offset ≤ length file
      → length file < offset + fuel
      → Sends rounds file offset (run_from percent pace rounds options file fuel k offset last time)
  run_from-Sends zero k offset last time le enough = absurd (omega arith)
  run_from-Sends (suc fuel) k offset last time le enough =
      elim (Bool-cases (ltb offset (length file))) [
        | inr h ↦
            let at_end : offset ≡ length file = ground arith in
            rw (run_from, h)
              ((
                _,
                refl,
                (
                  append-nil (take offset file),
                  le,
                  (_, refl, (sym at_end, inl (refl, at_end, refl))),
                  λ quiet. (at_end, refl),
                ),
              ))
        | inl h ↦ elim (Bool-cases ((rounds k).cancels)) [
          | inl c ↦
              rw (run_from, h, c)
                ((
                  _,
                  refl,
                  (
                    append-nil (take offset file),
                    le,
                    (_, refl, (refl, inr (inl (refl, ltb→lt offset (length file) h, refl, refl)))),
                    λ quiet. absurd (true≢false (sym c ∙ (quiet k).0)),
                  ),
                ))
          | inr c ↦
              let lt = ltb→lt offset (length file) h in
              let size = chunk_size-positive options.chunk_size in
              let bounds =
                chunk_end-bounds file offset
                  (min (offset + chunk_size_of options.chunk_size) (length file) - offset)
                  (omega arith) in
              rw (run_from, h, c)
                (write_from-Sends (run_from percent pace rounds options file fuel (suc k)) offset
                  (λ sent last' time' gt within.
                    run_from-Sends fuel (suc k) sent last' time' within (omega arith))
                  k (rounds (suc k)).cancels last time
                  (look_from percent pace rounds options file offset)
                  (omega (arith, bounds.0, size, lt)) bounds.1)
        ]
      ]
