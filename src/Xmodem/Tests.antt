-- ===== src/Xmodem/Tests.antt =====
-- Witnesses for src/xmodem-sender.ts: a file of three bytes, and a receiver in checksum mode that
-- answers at once.
use bitsby.Prelude.{◌/◌, ◌%◌, arith, ◌≡◌, refl, true, false, some, List, [], ◌∷◌}
use bitsby.Xmodem.Packet.{trailer, soh, max_retries, nak}
use bitsby.Xmodem.Wait.{Sender, Event, received, written, elapsed}
use bitsby.Xmodem.Send.{send, send_block, exhausted}
use bitsby.Xmodem.Crc.{remainder, trailer-remainder}
use bitsby.Xmodem.Delivery.{Delivered, send-Delivered}
use bitsby.Xmodem.Responsive.{Finished, idle, at, answers, all_answers, answered_log, send-Finished}
use bitsby.Xmodem.Timeout.{send_block-exhausted, acknowledged}

abbrev stopped : Sender
stopped = record {
  is_cancelled = false;
  is_running = false;
  incoming_buffer = [];
  data_resolvers = [];
  output = [];
  progress = [];
}

-- One block is answered with NAK once, and EOT at once.
abbrev answered : List Event
answered = received (nak ∷ []) ∷ all_answers (1 ∷ []) (answers 0 [])

send-Delivered_example :
    Delivered (7 ∷ 8 ∷ 9 ∷ []) [] (send (some (7 ∷ 8 ∷ 9 ∷ [])) [] true true (at stopped answered))
send-Delivered_example =
    send-Delivered 7 (8 ∷ 9 ∷ []) [] true true (at stopped answered)
      (send-Finished 7 (8 ∷ 9 ∷ []) (1 ∷ []) 0 true false stopped [] refl refl (omega arith, tt)
        (omega arith)).0.0

send-Finished_example :
    Finished
      (answered_log (7 ∷ 8 ∷ 9 ∷ []) false (1 ∷ []) 0 0)
      []
      (send (some (7 ∷ 8 ∷ 9 ∷ [])) [] true true (at stopped answered))
    × ((send (some (7 ∷ 8 ∷ 9 ∷ [])) [] true true (at stopped answered)).1.sender.is_running
        ≡ false)
send-Finished_example =
    send-Finished 7 (8 ∷ 9 ∷ []) (1 ∷ []) 0 true false stopped [] refl refl (omega arith, tt)
      (omega arith)

send_block-exhausted_example :
    (send_block max_retries (soh ∷ []) (at (idle [] []) (written ∷ elapsed ∷ acknowledged 9 []))).0
    ≡ exhausted
send_block-exhausted_example = send_block-exhausted (soh ∷ []) [] [] []

trailer-remainder_example :
    (trailer true (b'1' ∷ b'2' ∷ [])
      ≡ (remainder 0 (b'1' ∷ b'2' ∷ []) / 256) ∷ (remainder 0 (b'1' ∷ b'2' ∷ []) % 256) ∷ [])
    × (trailer false (b'1' ∷ b'2' ∷ []) ≡ (99 % 256) ∷ [])
trailer-remainder_example = trailer-remainder (b'1' ∷ b'2' ∷ []) (omega arith, (omega arith, tt))
