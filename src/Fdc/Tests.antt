-- ===== src/Fdc/Tests.antt =====
-- Witnesses for src/protocol.ts and src/server.ts: an engine with one drive, the drive 1, whose
-- state is its error code and the tracks that were written.
use bitsby.Prelude.{
  ℕ, ◌<◌, ◌^◌, ◌≡◌, refl, Bool, true, false, some, none, List, [], ◌∷◌, ◌++◌, ◌==◌, arith, length,
  if◌then◌else◌,
}
use bitsby.Fdc.Protocol.{
  CommandResponseBlock, FdcError, fdc_ok, write_err, stat_text, writ_text, to_buffer, from_buffer,
}
use bitsby.Fdc.Protocol.RoundTrip.{from_buffer-to_buffer}
use bitsby.Fdc.Server.{DriveEngine, Line, returned, handle_stat}
use bitsby.Fdc.Server.Status.{bit_at, handle_stat-status}
use bitsby.Fdc.Server.Write.{clear_line}
use bitsby.Fdc.Loop.{new_server, stops, pauses, resumes, Round, start}
use bitsby.Fdc.Loop.Served.{times, start-served}

abbrev Disk : Type 0
Disk = FdcError × List (List ℕ)

abbrev stored : List ℕ → Bool × FdcError → Disk → Bool × Disk
stored bytes (true, e) d = (true, (e, bytes ∷ d.1))
stored bytes (false, e) d = (false, (e, d.1))

abbrev one_drive : DriveEngine Disk
one_drive = record {
  fdc_errno = λ d. d.0;
  set_hdld = λ _ _ d. d;
  set_track = λ _ _ d. d;
  is_mounted = λ _ i. i == 1;
  is_in_swap_window = λ _ _. false;
  read_track = λ _ _ _ d. (none, d);
  can_write = λ i d. (i == 1, d);
  write_track = λ _ _ n bytes d.
      stored bytes (if length bytes == n then (true, fdc_ok) else (false, write_err)) d;
}

abbrev empty : Disk
empty = (fdc_ok, [])

-- WRIT of two bytes to the track 3 of drive 1, and of drive 2
abbrev to_drive_1 : CommandResponseBlock
to_drive_1 = record { cmd = writ_text; param1 = 0x1003; param2 = 2 }

abbrev to_drive_2 : CommandResponseBlock
to_drive_2 = record { cmd = writ_text; param1 = 0x2003; param2 = 2 }

from_buffer-to_buffer_example : from_buffer (to_buffer to_drive_1 ++ (9 ∷ [])) ≡ some to_drive_1
from_buffer-to_buffer_example =
    from_buffer-to_buffer to_drive_1 (9 ∷ []) (
      refl,
      (omega arith, (omega arith, (omega arith, (omega arith, tt)))),
      omega arith,
      omega arith,
    )

abbrev stat_1 : CommandResponseBlock
stat_1 = record { cmd = stat_text; param1 = 1; param2 = 5 }

handle_stat-status_example :
    (word : ℕ) × (handle_stat one_drive stat_1 (clear_line empty [] [])
      ≡ (returned, clear_line empty (to_buffer (record stat_1 { param2 = word }) ∷ []) []))
    × (word < 2 ^ 16)
    × (bit_at word 1 ≡ 1)
handle_stat-status_example = handle_stat-status one_drive stat_1 empty [] [] 1 (omega arith)

-- Paused for one round, then stopped.
abbrev rounds : List Round
rounds =
    record { is_open = true; calls = pauses ∷ [] }
    ∷ record { is_open = true; calls = resumes ∷ [] }
    ∷ record { is_open = false; calls = [] }
    ∷ record { is_open = true; calls = stops ∷ [] }
    ∷ []

abbrev two_stats : Line Disk
two_stats = clear_line empty [] (some (to_buffer stat_1) ∷ some (to_buffer stat_1) ∷ [])

start-served_example :
    ((start one_drive rounds (new_server false) two_stats).0 ≡ true)
    × ((start one_drive rounds (new_server false) two_stats).1.1 ≡ times one_drive 2 two_stats)
start-served_example = start-served one_drive rounds (new_server false) two_stats
