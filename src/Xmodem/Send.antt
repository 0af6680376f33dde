-- ===== src/Xmodem/Send.antt =====
-- src/xmodem-sender.ts: `send`, from the receiver's first byte to the end of transmission.
use bitsby.Prelude.{
  ℕ, zero, suc, ◌+◌, ◌*◌, ◌%◌, min, Bool, true, false, ◌&&◌, Option, none, some, List, [], ◌∷◌,
  ◌++◌, ◌==◌, if◌then◌else◌, length,
}
use bitsby.Xmodem.Packet.{
  eot, ack, nak, can, crc_request, block_size, max_retries, build_packet, total_blocks, data_block,
}
use bitsby.Xmodem.Wait.{
  Event, received, elapsed, written, write_failed, TransferState, running, completed, error, Sender,
  Wait, got, timed_out, was_cancelled, pending, Run, handle_incoming_data, cancel, wait_for_byte,
}

pub data Written : Type 0 where
  done failed unwritten : Written

-- Until the write of a packet ends, bytes and cancellations still come in; no timer is set.
unfoldable pub await_write : List Event → Sender → Written × Run
await_write [] s = (unwritten, record { sender = s; events = [] })
await_write (received bytes ∷ es) s = await_write es (handle_incoming_data bytes s).1
await_write (elapsed ∷ es) s = await_write es s
await_write (Event.cancelled ∷ es) s = await_write es (cancel s)
await_write (written ∷ es) s = (done, record { sender = s; events = es })
await_write (write_failed ∷ es) s = (failed, record { sender = s; events = es })

-- `terminalManager.write(bytes)`
unfoldable pub write_bytes : List ℕ → Run → Written × Run
unfolding await_write
write_bytes bytes r =
    await_write r.events (record r.sender { output = r.sender.output ++ (bytes ∷ []) })

unfoldable pub emit_progress : TransferState → ℕ → ℕ → Run → Run
emit_progress state sent total r = record r {
  sender = record r.sender {
    progress =
        r.sender.progress
        ++ (record { state = state; bytes_sent = sent; total_bytes = total } ∷ []);
  };
}

-- How a call of `send` ends; `in_progress` says that the events ran out first.
pub data SendResult : Type 0 where
  returned threw in_progress : SendResult

-- `sendCancel`: CAN CAN, and a failure of the write is swallowed.
abbrev pub swallow : (Run → SendResult × Run) → Written × Run → SendResult × Run
swallow next (unwritten, r) = (in_progress, r)
swallow next (done, r) = next r
swallow next (failed, r) = next r

unfoldable pub send_cancel_then : (Run → SendResult × Run) → Run → SendResult × Run
unfolding write_bytes
send_cancel_then next r = swallow next (write_bytes (can ∷ can ∷ []) r)

-- The `catch` of `send`.
abbrev pub fail : Run → SendResult × Run
fail r = (threw, emit_progress error 0 0 r)

-- A last report, and a return.
abbrev pub end_with : TransferState → ℕ → ℕ → Run → SendResult × Run
end_with state sent total r = (returned, emit_progress state sent total r)

pub data Block : Type 0 where
  sent cancelled_here cancelled_there exhausted write_error unfinished : Block

-- What the reply to a packet leads to; `retry` is the next round of the loop.
abbrev pub on_reply : (Run → Block × Run) → Wait × Run → Block × Run
on_reply retry (got b, r) =
    if b == ack then (sent, r) else if b == can then (cancelled_there, r) else retry r
on_reply retry (timed_out, r) = retry r
on_reply retry (was_cancelled, r) = retry r
on_reply retry (pending, r) = (unfinished, r)

abbrev pub on_written : (Run → Block × Run) → Written × Run → Block × Run
on_written retry (done, r) = on_reply retry (wait_for_byte (ack ∷ nak ∷ can ∷ []) r)
on_written retry (failed, r) = (write_error, r)
on_written retry (unwritten, r) = (unfinished, r)

unfoldable pub unless_cancelled : Bool → (Run → Block × Run) → Run → Block × Run
unless_cancelled true round r = (cancelled_here, r)
unless_cancelled false round r = round r

-- while (!blockSent && retries < MAX_RETRIES), by the retries left
unfoldable pub send_block : ℕ → List ℕ → Run → Block × Run
unfolding write_bytes unless_cancelled
send_block zero packet r = (exhausted, r)
send_block (suc left) packet r =
    unless_cancelled r.sender.is_cancelled
      (λ r'. on_written (send_block left packet) (write_bytes packet r')) r

pub data Eot : Type 0 where
  acked not_acked write_error unfinished : Eot

abbrev pub on_eot_reply : (Run → Eot × Run) → Wait × Run → Eot × Run
on_eot_reply retry (got b, r) = if b == ack then (acked, r) else retry r
on_eot_reply retry (timed_out, r) = retry r
on_eot_reply retry (was_cancelled, r) = retry r
on_eot_reply retry (pending, r) = (Eot.unfinished, r)

abbrev pub on_eot_written : (Run → Eot × Run) → Written × Run → Eot × Run
on_eot_written retry (done, r) = on_eot_reply retry (wait_for_byte (ack ∷ nak ∷ []) r)
on_eot_written retry (failed, r) = (Eot.write_error, r)
on_eot_written retry (unwritten, r) = (Eot.unfinished, r)

-- The loop that sends EOT until it is acknowledged, by the retries left.
unfoldable pub send_eot : ℕ → Run → Eot × Run
unfolding write_bytes
send_eot zero r = (not_acked, r)
send_eot (suc left) r = on_eot_written (send_eot left) (write_bytes (eot ∷ []) r)

abbrev pub conclude : ℕ → Eot × Run → SendResult × Run
conclude total (acked, r) = end_with completed total total r
conclude total (not_acked, r) = end_with error total total r
conclude total (Eot.write_error, r) = fail r
conclude total (Eot.unfinished, r) = (in_progress, r)

unfoldable pub finish : ℕ → Run → SendResult × Run
unfolding send_eot
finish total r = conclude total (send_eot max_retries r)

module _ (file : List ℕ) (crc_mode : Bool) where
  abbrev pub packet_of : ℕ → List ℕ
  packet_of block_index =
      build_packet ((block_index + 1) % 256) (data_block file block_index) crc_mode

  -- What the end of a block leads to; `next` is the next round of the loop.
  unfoldable pub after_block : (Run → SendResult × Run) → ℕ → Block × Run → SendResult × Run
  unfolding send_cancel_then
  after_block next block_index (sent, r) =
      next
        (emit_progress running (min ((block_index + 1) * block_size) (length file)) (length file) r)
  after_block next block_index (cancelled_here, r) =
      send_cancel_then (end_with TransferState.cancelled (block_index * block_size) (length file)) r
  after_block next block_index (cancelled_there, r) =
      end_with TransferState.cancelled (block_index * block_size) (length file) r
  after_block next block_index (exhausted, r) =
      end_with error (block_index * block_size) (length file) r
  after_block next block_index (write_error, r) = fail r
  after_block next block_index (unfinished, r) = (in_progress, r)

  -- for (blockIndex = ...; rounds left)
  unfoldable pub send_blocks : ℕ → ℕ → Run → SendResult × Run
  unfolding after_block finish send_block
  send_blocks zero block_index r = finish (length file) r
  send_blocks (suc rounds) block_index r =
      after_block (send_blocks rounds (block_index + 1)) block_index
        (send_block max_retries (packet_of block_index) r)

-- Behind the wait for the receiver's first byte.
unfoldable pub begin : List ℕ → Bool → Wait × Run → SendResult × Run
unfolding send_blocks
begin file use_crc (got b, r) =
    if r.sender.is_cancelled
    then send_cancel_then (end_with TransferState.cancelled 0 (length file)) r
    else if b == can
    then end_with TransferState.cancelled 0 (length file) r
    else send_blocks file (b == crc_request && use_crc) (total_blocks file) 0 r
begin file use_crc (was_cancelled, r) =
    send_cancel_then (end_with TransferState.cancelled 0 (length file)) r
begin file use_crc (timed_out, r) = fail r
begin file use_crc (pending, r) = (in_progress, r)

-- The body of the `try`, the file having been read.
unfoldable pub transfer : List ℕ → Bool → Run → SendResult × Run
unfolding begin
transfer [] use_crc r = end_with completed 0 0 r
transfer (x ∷ file) use_crc r =
    begin (x ∷ file) use_crc
      (wait_for_byte (crc_request ∷ nak ∷ can ∷ []) (emit_progress running 0 (length (x ∷ file)) r))

-- The `finally` of `send`, once the transfer has ended.
unfoldable pub clean_up : SendResult × Run → SendResult × Run
clean_up (in_progress, r) = (in_progress, r)
clean_up (result, r) = (
  result,
  record r {
    sender = record r.sender { is_running = false; incoming_buffer = []; data_resolvers = [] };
  },
)

-- The sender at the start of the `try`.
abbrev pub start : Run → Run
start r = record r {
  sender = record r.sender {
    is_running = true;
    is_cancelled = false;
    incoming_buffer = [];
    data_resolvers = [];
  };
}

-- Until the file has been read, bytes and cancellations come in; no timer is set, and no write is
-- under way.
unfoldable pub await_read : List Event → Sender → Sender
await_read [] s = s
await_read (received bytes ∷ es) s = await_read es (handle_incoming_data bytes s).1
await_read (elapsed ∷ es) s = await_read es s
await_read (Event.cancelled ∷ es) s = await_read es (cancel s)
await_read (written ∷ es) s = await_read es s
await_read (write_failed ∷ es) s = await_read es s

abbrev pub read_during : List Event → Run → Run
unfolding await_read
read_during reading r = record r { sender = await_read reading r.sender }

-- The body of the `try` behind `fs.readFile`; `none` is a file that cannot be read.
abbrev pub attempt : Option (List ℕ) → Bool → Run → SendResult × Run
attempt none use_crc r = fail r
attempt (some file) use_crc r = transfer file use_crc r

-- With the events that come in while the file is read.
unfoldable pub send : Option (List ℕ) → List Event → Bool → Bool → Run → SendResult × Run
unfolding transfer clean_up await_read
send file reading use_crc port_open r =
    if r.sender.is_running
    then (threw, r)
    else if port_open
    then clean_up (attempt file use_crc (read_during reading (start r)))
    else (threw, r)
