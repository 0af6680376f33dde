-- ===== src/Replay/Tests.antt =====
-- Witnesses for src/replay-engine.ts: two short lines sent four bytes at a time.
use bitsby.Prelude.{ℕ, ◌+◌, ◌*◌, ◌/◌, ◌≡◌, refl, ◌==◌, true, false, none, some, List, [], ◌∷◌}
use bitsby.Replay.Lines.{cr, lf, crlf, raw, convert_line_endings}
use bitsby.Replay.Events.{ReplayOptions, Round, contents}
use bitsby.Replay.Engine.{ReplayEngine, replay, Reply, ran, already_in_progress, not_open, no_fuel}
use bitsby.Replay.Normal.{normalize, convert_line_endings-normalize}
use bitsby.Replay.Sent.{bytes_written}
use bitsby.Replay.Delivered.{Replayed, replay-sent}

-- "10 A", CR LF, "RUN", LF
abbrev listing : List ℕ
listing = b'1' ∷ b'0' ∷ b' ' ∷ b'A' ∷ 13 ∷ 10 ∷ b'R' ∷ b'U' ∷ b'N' ∷ 10 ∷ []

abbrev options : ReplayOptions
options = record {
  file_name = b'A' ∷ [];
  chunk_size = some 3;
  inter_byte_delay_ms = none;
  inter_line_delay_ms = none;
  line_ending = some crlf;
}

abbrev rounded : ℕ → ℕ → ℕ
rounded a b = (200 * a + b) / (2 * b)

abbrev rounds : ℕ → Round
rounds k = record {
  cancels = false;
  write_error = none;
  drain_error = none;
  drain_elapsed = 5;
  now = 50 * k;
}

abbrev rounds_stopped : ℕ → Round
rounds_stopped k = record {
  cancels = k == 2;
  write_error = none;
  drain_error = none;
  drain_elapsed = 5;
  now = 50 * k;
}

abbrev idle : ReplayEngine
idle = record { running = false; cancelled = false; last_progress = none }

abbrev sent_by : Reply → List ℕ
sent_by already_in_progress = []
sent_by not_open = []
sent_by no_fuel = []
sent_by (ran r) = bytes_written r.events

sent_all :
    sent_by (replay rounded (λ n. n) rounds options true 0 (contents listing) idle).0
    ≡ (b'1' ∷ b'0' ∷ b' ' ∷ b'A' ∷ 13 ∷ 10 ∷ b'R' ∷ b'U' ∷ b'N' ∷ 13 ∷ 10 ∷ [])
unfolding replay
sent_all = refl

sent_some :
    sent_by (replay rounded (λ n. n) rounds_stopped options true 0 (contents listing) idle).0
    ≡ (b'1' ∷ b'0' ∷ b' ' ∷ b'A' ∷ 13 ∷ 10 ∷ [])
unfolding replay
sent_some = refl

replay-sent_example :
    Replayed rounds
      (convert_line_endings crlf listing)
      (replay rounded (λ n. n) rounds options true 0 (contents listing) idle)
replay-sent_example = replay-sent rounded (λ n. n) rounds options 0 listing idle refl

convert_line_endings-normalize_example :
    (convert_line_endings cr listing ≡ normalize (13 ∷ []) listing)
    × (convert_line_endings lf listing ≡ normalize (10 ∷ []) listing)
    × (convert_line_endings crlf listing ≡ normalize (13 ∷ 10 ∷ []) listing)
    × (convert_line_endings raw listing ≡ listing)
convert_line_endings-normalize_example = convert_line_endings-normalize listing
