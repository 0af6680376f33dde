-- ===== src/Xmodem/Responsive.antt =====
-- src/xmodem-sender.ts: the run of `send` against a receiver that answers every packet.
use mathlib.Core.Path.{subst}
use mathlib.Core.List.{append_assoc}
use bitsby.Prelude.{
  ℕ, zero, suc, ◌+◌, ◌*◌, ◌<◌, ◌≡◌, refl, ap, ◌∙◌, sym, min, Bool, true, false, ◌&&◌, some, List,
  [], ◌∷◌, ◌++◌, if◌then◌else◌, arith, replicate, length, All,
}
use bitsby.Xmodem.Packet.{eot, ack, nak, crc_request, max_retries, total_blocks, block_size}
use bitsby.Xmodem.Wait.{
  Event, received, written, running, Progress, Sender, Run, wait_for_byte, await_byte,
  handle_incoming_data, pump, try_resolve,
}
use bitsby.Xmodem.Send.{
  write_bytes, await_read, await_write, SendResult, returned, threw, in_progress, emit_progress,
  sent, send_block, unless_cancelled, acked, send_eot, finish, packet_of, after_block, send_blocks,
  begin, transfer, clean_up, send,
}
use bitsby.Xmodem.Transmission.{last_state-append, Completes}

-- A transfer that is running, with nothing in its buffer and no handler.
abbrev pub idle : List (List ℕ) → List Progress → Sender
idle log ps = record {
  is_cancelled = false;
  is_running = true;
  incoming_buffer = [];
  data_resolvers = [];
  output = log;
  progress = ps;
}

abbrev pub at : Sender → List Event → Run
at s es = record { sender = s; events = es }

-- The receiver answers a packet with NAK a number of times, then with ACK.
abbrev pub answers : ℕ → List Event → List Event
answers zero es = written ∷ received (ack ∷ []) ∷ es
answers (suc k) es = written ∷ received (nak ∷ []) ∷ answers k es

abbrev pub all_answers : List ℕ → List Event → List Event
all_answers [] es = es
all_answers (k ∷ ks) es = answers k (all_answers ks es)

send_block-answers :
    (left k : ℕ) (packet : List ℕ) (log : List (List ℕ)) (ps : List Progress) (es : List Event)
    → k < left
    → send_block left packet (at (idle log ps) (answers k es))
      ≡ (sent, at (idle (log ++ replicate (suc k) packet) ps) es)
unfolding send_block unless_cancelled write_bytes await_write wait_for_byte try_resolve await_byte
    handle_incoming_data pump
send_block-answers zero k packet log ps es h = absurd (omega arith)
send_block-answers (suc left) zero packet log ps es h = refl
send_block-answers (suc left) (suc k) packet log ps es h =
    send_block-answers left k packet (log ++ (packet ∷ [])) ps es (omega arith)
    ∙ ap (λ l. (sent, at (idle l ps) es))
        (append_assoc log (packet ∷ []) (replicate (suc k) packet))

send_eot-answers :
    (left k : ℕ) (log : List (List ℕ)) (ps : List Progress) (es : List Event)
    → k < left
    → send_eot left (at (idle log ps) (answers k es))
      ≡ (acked, at (idle (log ++ replicate (suc k) (eot ∷ [])) ps) es)
unfolding send_eot write_bytes await_write wait_for_byte try_resolve await_byte handle_incoming_data
    pump
send_eot-answers zero k log ps es h = absurd (omega arith)
send_eot-answers (suc left) zero log ps es h = refl
send_eot-answers (suc left) (suc k) log ps es h =
    send_eot-answers left k (log ++ ((eot ∷ []) ∷ [])) ps es (omega arith)
    ∙ ap (λ l. (acked, at (idle l ps) es))
        (append_assoc log ((eot ∷ []) ∷ []) (replicate (suc k) (eot ∷ [])))

-- The log of a transmission that is answered: each block once, and once more for each NAK.
unfoldable pub answered_log : List ℕ → Bool → List ℕ → ℕ → ℕ → List (List ℕ)
answered_log file crc_mode [] e i = replicate (suc e) (eot ∷ [])
answered_log file crc_mode (k ∷ ks) e i =
    replicate (suc k) (packet_of file crc_mode i) ++ answered_log file crc_mode ks e (i + 1)

abbrev Few : ℕ → Type 0
Few k = k < max_retries

-- How a run of an answered transmission ends.
abbrev pub Finished : List (List ℕ) → List Event → SendResult × Run → Type 0
Finished log es x = Completes x × (x.1.sender.output ≡ log) × (x.1.events ≡ es)

module _ (file : List ℕ) (crc_mode : Bool) (e : ℕ) (few : e < max_retries) where
  send_blocks-answers :
      (ks : List ℕ) (i : ℕ) (log : List (List ℕ)) (ps : List Progress) (es : List Event)
      → All Few ks
      → Finished (log ++ answered_log file crc_mode ks e i) es (
          send_blocks file crc_mode
            (length ks)
            i
            (at (idle log ps) (all_answers ks (answers e es))))
  unfolding send_blocks after_block finish emit_progress answered_log
  send_blocks-answers [] i log ps es h =
      rw (send_eot-answers max_retries e log ps es few) ((refl, last_state-append ps _), refl, refl)
  send_blocks-answers (k ∷ ks) i log ps es h =
      let after = all_answers ks (answers e es) in
      let wrote = log ++ replicate (suc k) (packet_of file crc_mode i) in
      let report : Progress = record {
        state = running;
        bytes_sent = min ((i + 1) * block_size) (length file);
        total_bytes = length file;
      } in
      rw (send_block-answers max_retries k (packet_of file crc_mode i) log ps after h.0) (
        rw
          (sym (
            append_assoc log (replicate (suc k) (packet_of file crc_mode i))
              (answered_log file crc_mode ks e (i + 1))))
          (send_blocks-answers ks (i + 1) wrote (ps ++ (report ∷ [])) es h.1))

clean_up-Finished :
    (log : List (List ℕ)) (es : List Event) (x : SendResult × Run)
    → Finished log es x
    → Finished log es (clean_up x) × (clean_up x).1.sender.is_running ≡ false
unfolding clean_up
clean_up-Finished log es (returned, r) h = (h, refl)
clean_up-Finished log es (threw, r) h = absurd (cc (h.0.0))
clean_up-Finished log es (in_progress, r) h = absurd (cc (h.0.0))

-- The byte a receiver asks with.
abbrev pub request : Bool → ℕ
request crc_asked = if crc_asked then crc_request else nak

module _ (first : ℕ) (rest : List ℕ) (ks : List ℕ) (e : ℕ) where
  started-Finished :
      (use_crc crc_asked : Bool) (log : List (List ℕ)) (ps : List Progress) (es : List Event)
      → length ks ≡ total_blocks (first ∷ rest)
      → All Few ks
      → e < max_retries
      → Finished (log ++ answered_log (first ∷ rest) (crc_asked && use_crc) ks e 0) es (
          transfer
            (first ∷ rest)
            use_crc
            (at (idle log ps) (received (request crc_asked ∷ []) ∷ all_answers ks (answers e es))))
  unfolding transfer begin emit_progress wait_for_byte try_resolve await_byte handle_incoming_data
      pump
  started-Finished use_crc true log ps es counted few_ks few =
      let file = first ∷ rest in
      let report : Progress = record {
        state = running;
        bytes_sent = 0;
        total_bytes = length file;
      } in
      let events = all_answers ks (answers e es) in
      subst
        (λ n.
          Finished (log ++ answered_log file use_crc ks e 0) es
            (send_blocks file use_crc n 0 (at (idle log (ps ++ (report ∷ []))) events)))
        counted (send_blocks-answers file use_crc e few ks 0 log (ps ++ (report ∷ [])) es few_ks)
  started-Finished use_crc false log ps es counted few_ks few =
      let file = first ∷ rest in
      let report : Progress = record {
        state = running;
        bytes_sent = 0;
        total_bytes = length file;
      } in
      let events = all_answers ks (answers e es) in
      subst
        (λ n.
          Finished (log ++ answered_log file false ks e 0) es
            (send_blocks file false n 0 (at (idle log (ps ++ (report ∷ []))) events)))
        counted (send_blocks-answers file false e few ks 0 log (ps ++ (report ∷ [])) es few_ks)

  -- Nothing coming in while the file is read: a receiver that asks with C or NAK, and answers each block and EOT with fewer than ten NAKs and
  -- then an ACK, gets the file: `send` returns, its last report says completed, every block is
  -- written once and once more for each of its NAKs, in order, then EOT in the same way, in CRC
  -- mode exactly if the receiver and the caller ask for it; no event is left unread or read too
  -- early, and the sender stands still again.
  pub send-Finished :
      (use_crc crc_asked : Bool) (s : Sender) (es : List Event)
      → s.is_running ≡ false
      → length ks ≡ total_blocks (first ∷ rest)
      → All Few ks
      → e < max_retries
      → let x =
          send
            (some (first ∷ rest))
            []
            use_crc
            true
            (at s (received (request crc_asked ∷ []) ∷ all_answers ks (answers e es))) in
        Finished (s.output ++ answered_log (first ∷ rest) (crc_asked && use_crc) ks e 0) es x
        × (x.1.sender.is_running ≡ false)
  unfolding send await_read
  send-Finished use_crc crc_asked s es still counted few_ks few = rw still (
      clean_up-Finished (s.output ++ answered_log (first ∷ rest) (crc_asked && use_crc) ks e 0) es
        (transfer (first ∷ rest) use_crc (
          at (idle s.output s.progress)
            (received (request crc_asked ∷ []) ∷ all_answers ks (answers e es))))
        (started-Finished use_crc crc_asked s.output s.progress es counted few_ks few))
