-- ===== src/Xmodem/Transmission.antt =====
-- src/xmodem-sender.ts: the log that a run of `send` leaves when it reports that it completed.
use mathlib.Core.Option.{some-injective}
use mathlib.Core.List.{append_assoc}
use bitsby.Prelude.{
  ℕ, zero, suc, ◌+◌, ◌*◌, ◌≤◌, ◌≡◌, ◌≢◌, refl, ap, ◌∙◌, sym, min, Bool, Option, none, some, List,
  [], ◌∷◌, ◌++◌, replicate, length,
}
use bitsby.Xmodem.Packet.{eot, can, block_size, max_retries}
use bitsby.Xmodem.Wait.{TransferState, running, completed, error, Progress, Run}
use bitsby.Xmodem.Send.{
  Written, done, failed, unwritten, write_bytes, SendResult, returned, emit_progress, swallow,
  send_cancel_then, end_with, Block, sent, cancelled_here, cancelled_there, exhausted, write_error,
  unfinished, send_block, Eot, acked, not_acked, send_eot, conclude, finish, packet_of, after_block,
  send_blocks,
}
use bitsby.Xmodem.Output.{output_of}
use bitsby.Xmodem.Rounds.{Round, send_block-Round, send_eot-Round}

-- The state of `lastProgress`.
abbrev pub last_state : List Progress → Option TransferState
last_state [] = none
last_state (p ∷ []) = some p.state
last_state (p ∷ q ∷ ps) = last_state (q ∷ ps)

pub last_state-append :
    (ps : List Progress) (p : Progress) → last_state (ps ++ (p ∷ [])) ≡ some p.state
last_state-append [] p = refl
last_state-append (q ∷ []) p = refl
last_state-append (q ∷ q' ∷ ps) p = last_state-append (q' ∷ ps) p

-- The call returned, and the last report says that the transfer is complete.
abbrev pub Completes : SendResult × Run → Type 0
Completes x = (x.0 ≡ returned) × (last_state x.1.sender.progress ≡ some completed)

-- The log of a transmission: each block from an index on is written one to ten times, in order,
-- and then EOT one to ten times.
pub data Transmission (file : List ℕ) (crc_mode : Bool) : ℕ → ℕ → List (List ℕ) → Type 0 where
  eots :
      (i k : ℕ)
      → 1 ≤ k
      → k ≤ max_retries
      → Transmission file crc_mode zero i (replicate k (eot ∷ []))
  block :
      (n i k : ℕ) (rest : List (List ℕ))
      → 1 ≤ k
      → k ≤ max_retries
      → Transmission file crc_mode n (i + 1) rest
      → Transmission file crc_mode (suc n) i (replicate k (packet_of file crc_mode i) ++ rest)

end_with-state :
    (state : TransferState) (n total : ℕ) (r : Run)
    → last_state (end_with state n total r).1.sender.progress ≡ some state
unfolding emit_progress
end_with-state state n total r =
    last_state-append r.sender.progress
      (record { state = state; bytes_sent = n; total_bytes = total })

pub not_completed :
    (state : TransferState) (n total : ℕ) (r : Run)
    → state ≢ completed
    → ¬ Completes (end_with state n total r)
not_completed state n total r h (_, e) =
    h (some-injective state completed (sym (end_with-state state n total r) ∙ e))

pub send_cancel-not_completed :
    (n total : ℕ) (r : Run)
    → ¬ Completes (send_cancel_then (end_with TransferState.cancelled n total) r)
unfolding send_cancel_then
send_cancel-not_completed n total r = go (write_bytes (can ∷ can ∷ []) r)
  where
    go : (x : Written × Run) → ¬ Completes (swallow (end_with TransferState.cancelled n total) x)
    go (unwritten, r') (e, _) = cc e
    go (done, r') c = not_completed TransferState.cancelled n total r' (λ e. absurd (cc e)) c
    go (failed, r') c = not_completed TransferState.cancelled n total r' (λ e. absurd (cc e)) c

module _ (file : List ℕ) (crc_mode : Bool) where
  -- From a block on, the log of a run that completes is that of a transmission.
  abbrev pub Delivers : ℕ → ℕ → List (List ℕ) → SendResult × Run → Type 0
  Delivers n i before x =
      Completes x
      → (log : List (List ℕ)) × (output_of x ≡ before ++ log) × Transmission file crc_mode n i log

  conclude-Delivers :
      (i : ℕ) (before : List (List ℕ)) (x : Eot × Run)
      → Round acked max_retries (eot ∷ []) before x
      → Delivers zero i before (conclude (length file) x)
  unfolding emit_progress
  conclude-Delivers i before (acked, r) w c =
      let copies = w.1 refl in
      (replicate copies.0 (eot ∷ []), copies.1, eots i copies.0 copies.2 copies.3)
  conclude-Delivers i before (not_acked, r) w c =
      absurd (not_completed error (length file) (length file) r (λ e. absurd (cc e)) c)
  conclude-Delivers i before (Eot.write_error, r) w (e, _) = absurd (cc e)
  conclude-Delivers i before (Eot.unfinished, r) w (e, _) = absurd (cc e)

  after_block-Delivers :
      (n i : ℕ) (next : Run → SendResult × Run) (before : List (List ℕ)) (x : Block × Run)
      → ((r : Run) → Delivers n (i + 1) r.sender.output (next r))
      → Round sent max_retries (packet_of file crc_mode i) before x
      → Delivers (suc n) i before (after_block file crc_mode next i x)
  unfolding after_block emit_progress
  after_block-Delivers n i next before (sent, r) h w c =
      let copies = w.1 refl in
      let rest =
        h (emit_progress running (min ((i + 1) * block_size) (length file)) (length file) r) c in
      (
        replicate copies.0 (packet_of file crc_mode i) ++ rest.0,
        rest.1
            ∙ ap (λ l. l ++ rest.0) copies.1
            ∙ append_assoc before (replicate copies.0 (packet_of file crc_mode i)) rest.0,
        block n i copies.0 rest.0 copies.2 copies.3 rest.2,
      )
  after_block-Delivers n i next before (cancelled_here, r) h w c =
      absurd (send_cancel-not_completed (i * block_size) (length file) r c)
  after_block-Delivers n i next before (cancelled_there, r) h w c = absurd (
      not_completed TransferState.cancelled (i * block_size) (length file) r (λ e. absurd (cc e)) c)
  after_block-Delivers n i next before (exhausted, r) h w c =
      absurd (not_completed error (i * block_size) (length file) r (λ e. absurd (cc e)) c)
  after_block-Delivers n i next before (write_error, r) h w (e, _) = absurd (cc e)
  after_block-Delivers n i next before (unfinished, r) h w (e, _) = absurd (cc e)

  pub send_blocks-Delivers :
      (n i : ℕ) (r : Run) → Delivers n i r.sender.output (send_blocks file crc_mode n i r)
  unfolding send_blocks finish
  send_blocks-Delivers zero i r =
      conclude-Delivers i r.sender.output (send_eot max_retries r) (send_eot-Round max_retries r)
  send_blocks-Delivers (suc n) i r =
      after_block-Delivers n i (send_blocks file crc_mode n (i + 1)) r.sender.output
        (send_block max_retries (packet_of file crc_mode i) r) (send_blocks-Delivers n (i + 1))
        (send_block-Round max_retries (packet_of file crc_mode i) r)
