-- ===== src/Xmodem/Timeout.antt =====
-- src/xmodem-sender.ts: a handler whose wait has timed out stays in `dataResolvers`, and takes the
-- next byte that arrives.
use bitsby.Prelude.{ℕ, zero, suc, ◌≡◌, refl, List, [], ◌∷◌, ◌++◌}
use bitsby.Xmodem.Packet.{ack, max_retries}
use bitsby.Xmodem.Wait.{
  Event, received, written, elapsed, settled, Progress, Sender, wait_for_byte, await_byte,
  handle_incoming_data, pump, try_resolve,
}
use bitsby.Xmodem.Send.{write_bytes, await_write, exhausted, send_block, unless_cancelled}
use bitsby.Xmodem.Responsive.{idle, at}

-- A receiver that acknowledges every packet by one ACK, in time, and waits for the next packet.
abbrev pub acknowledged : ℕ → List Event → List Event
acknowledged zero es = es
acknowledged (suc n) es = written ∷ received (ack ∷ []) ∷ elapsed ∷ acknowledged n es

abbrev stale : List (List ℕ) → List Progress → Sender
stale log ps = record (idle log ps) { data_resolvers = settled ∷ [] }

stale-exhausted :
    (left : ℕ) (packet : List ℕ) (log : List (List ℕ)) (ps : List Progress) (es : List Event)
    → (send_block left packet (at (stale log ps) (acknowledged left es))).0 ≡ exhausted
unfolding send_block unless_cancelled write_bytes await_write wait_for_byte try_resolve await_byte
    handle_incoming_data pump
stale-exhausted zero packet log ps es = refl
stale-exhausted (suc left) packet log ps es =
    stale-exhausted left packet (log ++ (packet ∷ [])) ps es

-- Once the answer to a block has been waited for in vain, a receiver that acknowledges each of the
-- nine repeated packets by one ACK, in time, is not heard: the block fails.
pub send_block-exhausted :
    (packet : List ℕ) (log : List (List ℕ)) (ps : List Progress) (es : List Event)
    → (send_block max_retries packet (at (idle log ps) (written ∷ elapsed ∷ acknowledged 9 es))).0
      ≡ exhausted
unfolding send_block unless_cancelled write_bytes await_write wait_for_byte try_resolve await_byte
    handle_incoming_data pump
send_block-exhausted packet log ps es = stale-exhausted 9 packet (log ++ (packet ∷ [])) ps es
