-- ===== src/Xmodem/Delivery.antt =====
-- src/xmodem-sender.ts: what a receiver has when `send` reports that it completed.
use bitsby.Prelude.{
  ℕ, zero, suc, ◌+◌, ◌-◌, ◌*◌, ◌%◌, ◌≤◌, ◌≡◌, ◌≢◌, refl, ap, ◌∙◌, Bool, true, false, ◌&&◌, some,
  List, [], ◌∷◌, ◌++◌, ◌==◌, if◌then◌else◌, arith, replicate, length,
}
use bitsby.Xmodem.Packet.{eot, nak, can, sub, crc_request, block_size, total_blocks, data_block}
use bitsby.Xmodem.Wait.{
  TransferState, Event, running, Wait, got, timed_out, was_cancelled, pending, Run, wait_for_byte,
}
use bitsby.Xmodem.Send.{
  SendResult, returned, threw, in_progress, emit_progress, send_cancel_then, end_with, packet_of,
  send_blocks, begin, transfer, clean_up, start, read_during, send,
}
use bitsby.Xmodem.Receiver.{receive_packet, receive-build_packet, keep, reassemble}
use bitsby.Xmodem.Blocks.{blocks_from, blocks_from-padded, length-data_block}
use bitsby.Xmodem.Output.{output_of, await_read-output, wait_for_byte-output}
use bitsby.Xmodem.Transmission.{
  Completes, Transmission, eots, block, not_completed, send_cancel-not_completed,
  send_blocks-Delivers,
}

module _ (file : List ℕ) (crc_mode : Bool) where
  packet_of-received :
      (i : ℕ)
      → receive_packet crc_mode (packet_of file crc_mode i)
        ≡ some ((i + 1) % 256, data_block file i)
  packet_of-received i =
      receive-build_packet crc_mode ((i + 1) % 256) (data_block file i) (omega arith)
        (length-data_block file i)

  -- Copies of a packet with another number than the expected one change nothing.
  reassemble-repeated :
      (k i expected : ℕ) (rest : List (List ℕ))
      → (i + 1) % 256 ≢ expected
      → reassemble crc_mode expected (replicate k (packet_of file crc_mode i) ++ rest)
        ≡ reassemble crc_mode expected rest
  unfolding reassemble keep
  reassemble-repeated zero i expected rest h = refl
  reassemble-repeated (suc k) i expected rest h =
      let other : ((i + 1) % 256 == expected) ≡ false = ground arith in
      rw (packet_of-received i, other) (reassemble-repeated k i expected rest h)

  reassemble-block :
      (k i : ℕ) (rest : List (List ℕ))
      → 1 ≤ k
      → reassemble crc_mode ((i + 1) % 256) (replicate k (packet_of file crc_mode i) ++ rest)
        ≡ data_block file i ++ reassemble crc_mode ((i + 1 + 1) % 256) rest
  unfolding reassemble keep
  reassemble-block zero i rest h = absurd (omega arith)
  reassemble-block (suc k) i rest h =
      let same : ((i + 1) % 256 == (i + 1) % 256) ≡ true = ground arith in
      let next : ((i + 1) % 256 + 1) % 256 ≡ (i + 1 + 1) % 256 = omega arith in
      rw (packet_of-received i, same, next)
        (ap (λ l. data_block file i ++ l)
          (reassemble-repeated k i ((i + 1 + 1) % 256) rest (λ e. absurd (omega arith))))

  reassemble-eots : (k expected : ℕ) → reassemble crc_mode expected (replicate k (eot ∷ [])) ≡ []
  unfolding reassemble keep receive_packet
  reassemble-eots zero expected = refl
  reassemble-eots (suc k) expected = reassemble-eots k expected

  reassemble-Transmission :
      (n i : ℕ) (log : List (List ℕ))
      → Transmission file crc_mode n i log
      → reassemble crc_mode ((i + 1) % 256) log ≡ blocks_from file n i
  unfolding blocks_from
  reassemble-Transmission zero i log (eots _ k _ _) = reassemble-eots k ((i + 1) % 256)
  reassemble-Transmission (suc n) i log (block _ _ k rest low high t) =
      reassemble-block k i rest low
      ∙ ap (λ l. data_block file i ++ l) (reassemble-Transmission n (i + 1) rest t)

-- What a completed run of `send` has delivered: the written log is the old one and then that of a
-- transmission of all blocks, in the receiver's mode, and a receiver that drops repeated packets
-- makes the file of it, with padding.
abbrev pub Delivered : List ℕ → List (List ℕ) → SendResult × Run → Type 0
Delivered file before x =
    let padding = total_blocks file * block_size - length file in
    (crc_mode : Bool) × (log : List (List ℕ)) × (output_of x ≡ before ++ log)
    × Transmission file crc_mode (total_blocks file) 0 log
    × (reassemble crc_mode 1 log ≡ file ++ replicate padding sub)

begin-Delivered :
    (file : List ℕ) (use_crc : Bool) (before : List (List ℕ)) (x : Wait × Run)
    → output_of x ≡ before
    → Completes (begin file use_crc x)
    → Delivered file before (begin file use_crc x)
unfolding begin
begin-Delivered file use_crc before (got b, r) e =
    elim r.sender.is_cancelled
      as (λ t.
        let x =
          if t
          then send_cancel_then (end_with TransferState.cancelled 0 (length file)) r
          else if b == can
          then end_with TransferState.cancelled 0 (length file) r
          else send_blocks file (b == crc_request && use_crc) (total_blocks file) 0 r in
        Completes x → Delivered file before x) [
          | true ↦ λ c. absurd (send_cancel-not_completed 0 (length file) r c)
          | false ↦
              elim (b == can)
                as (λ t.
                  let x =
                    if t
                    then end_with TransferState.cancelled 0 (length file) r
                    else send_blocks file (b == crc_request && use_crc) (total_blocks file) 0 r in
                  Completes x → Delivered file before x) [
                    | true ↦ λ c. absurd (
                        not_completed TransferState.cancelled 0 (length file) r
                          (λ e'. absurd (cc e')) c)
                    | false ↦ λ c.
                        let mode = b == crc_request && use_crc in
                        let d = send_blocks-Delivers file mode (total_blocks file) 0 r c in
                        (
                          mode,
                          d.0,
                          d.1 ∙ ap (λ l. l ++ d.0) e,
                          d.2,
                          reassemble-Transmission file mode (total_blocks file) 0 d.0 d.2
                              ∙ (blocks_from-padded file).0,
                        )
                  ]
        ]
begin-Delivered file use_crc before (was_cancelled, r) e =
    λ c. absurd (send_cancel-not_completed 0 (length file) r c)
begin-Delivered file use_crc before (timed_out, r) e = λ c. absurd (cc (c.0))
begin-Delivered file use_crc before (pending, r) e = λ c. absurd (cc (c.0))

clean_up-Completes : (x : SendResult × Run) → Completes (clean_up x) → Completes x
unfolding clean_up
clean_up-Completes (returned, r) c = c
clean_up-Completes (threw, r) c = c
clean_up-Completes (in_progress, r) c = c

clean_up-output : (x : SendResult × Run) → output_of (clean_up x) ≡ output_of x
unfolding clean_up
clean_up-output (returned, r) = refl
clean_up-output (threw, r) = refl
clean_up-output (in_progress, r) = refl

clean_up-Delivered :
    (file : List ℕ) (before : List (List ℕ)) (x : SendResult × Run)
    → (Completes x → Delivered file before x)
    → Completes (clean_up x)
    → Delivered file before (clean_up x)
clean_up-Delivered file before x h c =
    let d = h (clean_up-Completes x c) in (d.0, d.1, clean_up-output x ∙ d.2, d.3, d.4)

-- If a call of `send` for a file of one byte or more returns and its last report says completed,
-- then what it wrote is, behind what was written before, each block's packet one to ten times, in
-- order, and EOT one to ten times, all in one of the two modes; and a receiver that keeps the
-- packets with the number it waits for has then received the file, filled up with SUB bytes to a
-- multiple of 128; whatever comes in while the file is read and after.
pub send-Delivered :
    (first : ℕ) (rest : List ℕ) (reading : List Event) (use_crc port_open : Bool) (r : Run)
    → Completes (send (some (first ∷ rest)) reading use_crc port_open r)
    → Delivered
        (first ∷ rest)
        r.sender.output
        (send (some (first ∷ rest)) reading use_crc port_open r)
unfolding send transfer emit_progress
send-Delivered first rest reading use_crc port_open r =
    let file = first ∷ rest in
    let loaded = read_during reading (start r) in
    let start_wait =
      wait_for_byte (crc_request ∷ nak ∷ can ∷ []) (emit_progress running 0 (length file) loaded) in
    let started = clean_up-Delivered file r.sender.output (transfer file use_crc loaded) (
      begin-Delivered file use_crc r.sender.output start_wait (
        wait_for_byte-output (crc_request ∷ nak ∷ can ∷ [])
          (emit_progress running 0 (length file) loaded)
        ∙ await_read-output reading (start r).sender)) in
    let ran = clean_up (transfer file use_crc loaded) in
    elim r.sender.is_running
      as (λ t.
        let x = if t then (threw, r) else if port_open then ran else (threw, r) in
        Completes x → Delivered file r.sender.output x) [
          | true ↦ λ c. absurd (cc (c.0))
          | false ↦
              elim port_open
                as (λ t.
                  let x = if t then ran else (threw, r) in
                  Completes x → Delivered file r.sender.output x) [
                    | false ↦ λ c. absurd (cc (c.0))
                    | true ↦ started
                  ]
        ]
