-- ===== src/Xmodem/Rounds.antt =====
-- What the retry loops of `send` in src/xmodem-sender.ts add to the bytes that are written.
use mathlib.Core.List.{append_assoc, append-nil}
use bitsby.Prelude.{
  ℕ, zero, suc, ◌≤◌, ◌≡◌, ap, ◌∙◌, sym, Bool, true, false, List, [], ◌∷◌, ◌++◌, ◌==◌, if◌then◌else◌,
  arith, replicate,
}
use bitsby.Xmodem.Packet.{eot, ack, nak, can}
use bitsby.Xmodem.Wait.{Wait, got, timed_out, was_cancelled, pending, Run, wait_for_byte}
use bitsby.Xmodem.Send.{
  Written, done, failed, unwritten, write_bytes, Block, sent, cancelled_there, write_error,
  unfinished, on_reply, on_written, unless_cancelled, send_block, Eot, acked, on_eot_reply,
  on_eot_written, send_eot,
}
use bitsby.Xmodem.Output.{output_of, write_bytes-output, wait_for_byte-output}

-- A log that grew by between `low` and `high` copies of one packet.
abbrev pub Copies : ℕ → ℕ → List ℕ → List (List ℕ) → List (List ℕ) → Type 0
Copies low high packet before after =
    (k : ℕ) × (after ≡ before ++ replicate k packet) × (low ≤ k) × (k ≤ high)

-- What one more write of the packet, and then a log of copies of it, amounts to.
one_more :
    (low high : ℕ) (packet : List ℕ) (before middle after : List (List ℕ))
    → middle ≡ before ++ (packet ∷ [])
    → Copies 0 high packet middle after
    → low ≤ 1
    → Copies low (suc high) packet before after
one_more low high packet before middle after e (k, e', _, le) h = (
  suc k,
  e' ∙ ap (λ l. l ++ replicate k packet) e ∙ append_assoc before (packet ∷ []) (replicate k packet),
  omega arith,
  omega arith,
)

one_copy :
    (left : ℕ) (packet : List ℕ) (before after : List (List ℕ))
    → after ≡ before ++ (packet ∷ [])
    → Copies 1 (suc left) packet before after
one_copy left packet before after e = (1, e, omega arith, omega arith)

no_copy : (high : ℕ) (packet : List ℕ) (log : List (List ℕ)) → Copies 0 high packet log log
no_copy high packet log = (0, sym (append-nil log), omega arith, omega arith)

lower_bound :
    (high : ℕ) (packet : List ℕ) (before after : List (List ℕ))
    → Copies 1 high packet before after
    → Copies 0 high packet before after
lower_bound high packet before after (k, e, _, le) = (k, e, omega arith, le)

-- What a round of a loop may have written, given the log before it: copies of the packet, and
-- one at least where the round ends well.
abbrev pub Round : {A : Type 0} → A → ℕ → List ℕ → List (List ℕ) → A × Run → Type 0
Round good high packet before x =
    Copies 0 high packet before (output_of x)
    × (x.0 ≡ good → Copies 1 high packet before (output_of x))

-- A round that wrote the packet once and ended.
ended :
    {A : Type 0} (good : A) (left : ℕ) (packet : List ℕ) (before : List (List ℕ)) (x : A × Run)
    → output_of x ≡ before ++ (packet ∷ [])
    → Round good (suc left) packet before x
ended good left packet before x e =
    let once = one_copy left packet before (output_of x) e in
    (lower_bound (suc left) packet before (output_of x) once, λ _. once)

-- A round that wrote the packet once and goes on.
again :
    {A : Type 0} (good : A) (left : ℕ) (packet : List ℕ) (before : List (List ℕ)) (r : Run)
    (x : A × Run)
    → r.sender.output ≡ before ++ (packet ∷ [])
    → Round good left packet r.sender.output x
    → Round good (suc left) packet before x
again good left packet before r x e more =
    let longer =
      one_more 1 left packet before r.sender.output (output_of x) e more.0 (omega arith) in
    (lower_bound (suc left) packet before (output_of x) longer, λ _. longer)

module _ (left : ℕ) (packet : List ℕ) (retry : Run → Block × Run)
    (retried : (r : Run) → Round sent left packet r.sender.output (retry r)) where
  on_reply-Round :
      (before : List (List ℕ)) (x : Wait × Run)
      → output_of x ≡ before ++ (packet ∷ [])
      → Round sent (suc left) packet before (on_reply retry x)
  on_reply-Round before (got b, r) e =
      elim (b == ack)
        as (λ t.
          Round sent (suc left) packet before
            (if t then (sent, r) else if b == can then (cancelled_there, r) else retry r)) [
              | true ↦ ended sent left packet before (sent, r) e
              | false ↦
                  elim (b == can)
                    as (λ t.
                      Round sent (suc left) packet before
                        (if t then (cancelled_there, r) else retry r)) [
                          | true ↦ ended sent left packet before (cancelled_there, r) e
                          | false ↦ again sent left packet before r (retry r) e (retried r)
                        ]
            ]
  on_reply-Round before (timed_out, r) e = again sent left packet before r (retry r) e (retried r)
  on_reply-Round before (was_cancelled, r) e =
      again sent left packet before r (retry r) e (retried r)
  on_reply-Round before (pending, r) e = ended sent left packet before (unfinished, r) e

  on_written-Round :
      (before : List (List ℕ)) (x : Written × Run)
      → output_of x ≡ before ++ (packet ∷ [])
      → Round sent (suc left) packet before (on_written retry x)
  on_written-Round before (done, r) e =
      on_reply-Round before (wait_for_byte (ack ∷ nak ∷ can ∷ []) r)
        (wait_for_byte-output (ack ∷ nak ∷ can ∷ []) r ∙ e)
  on_written-Round before (failed, r) e = ended sent left packet before (write_error, r) e
  on_written-Round before (unwritten, r) e = ended sent left packet before (unfinished, r) e

  unless_cancelled-Round :
      (c : Bool) (r : Run)
      → Round sent
          (suc left)
          packet
          r.sender.output
          (unless_cancelled c (λ r'. on_written retry (write_bytes packet r')) r)
  unfolding unless_cancelled
  unless_cancelled-Round true r = (no_copy (suc left) packet r.sender.output, λ e. absurd (cc e))
  unless_cancelled-Round false r =
      on_written-Round r.sender.output (write_bytes packet r) (write_bytes-output packet r)

-- A block is written at most once for each retry that is left, at least once if it is sent, and
-- nothing else is written.
pub send_block-Round :
    (left : ℕ) (packet : List ℕ) (r : Run)
    → Round sent left packet r.sender.output (send_block left packet r)
unfolding send_block
send_block-Round zero packet r = (no_copy zero packet r.sender.output, λ e. absurd (cc e))
send_block-Round (suc left) packet r =
    unless_cancelled-Round left packet (send_block left packet) (send_block-Round left packet)
      r.sender.is_cancelled r

module _ (left : ℕ) (retry : Run → Eot × Run)
    (retried : (r : Run) → Round acked left (eot ∷ []) r.sender.output (retry r)) where
  on_eot_reply-Round :
      (before : List (List ℕ)) (x : Wait × Run)
      → output_of x ≡ before ++ ((eot ∷ []) ∷ [])
      → Round acked (suc left) (eot ∷ []) before (on_eot_reply retry x)
  on_eot_reply-Round before (got b, r) e =
      elim (b == ack)
        as (λ t. Round acked (suc left) (eot ∷ []) before (if t then (acked, r) else retry r)) [
          | true ↦ ended acked left (eot ∷ []) before (acked, r) e
          | false ↦ again acked left (eot ∷ []) before r (retry r) e (retried r)
        ]
  on_eot_reply-Round before (timed_out, r) e =
      again acked left (eot ∷ []) before r (retry r) e (retried r)
  on_eot_reply-Round before (was_cancelled, r) e =
      again acked left (eot ∷ []) before r (retry r) e (retried r)
  on_eot_reply-Round before (pending, r) e =
      ended acked left (eot ∷ []) before (Eot.unfinished, r) e

  on_eot_written-Round :
      (before : List (List ℕ)) (x : Written × Run)
      → output_of x ≡ before ++ ((eot ∷ []) ∷ [])
      → Round acked (suc left) (eot ∷ []) before (on_eot_written retry x)
  on_eot_written-Round before (done, r) e =
      on_eot_reply-Round before (wait_for_byte (ack ∷ nak ∷ []) r)
        (wait_for_byte-output (ack ∷ nak ∷ []) r ∙ e)
  on_eot_written-Round before (failed, r) e =
      ended acked left (eot ∷ []) before (Eot.write_error, r) e
  on_eot_written-Round before (unwritten, r) e =
      ended acked left (eot ∷ []) before (Eot.unfinished, r) e

-- EOT is written at most once for each retry that is left, at least once if it is acknowledged,
-- and nothing else is written.
pub send_eot-Round :
    (left : ℕ) (r : Run) → Round acked left (eot ∷ []) r.sender.output (send_eot left r)
unfolding send_eot
send_eot-Round zero r = (no_copy zero (eot ∷ []) r.sender.output, λ e. absurd (cc e))
send_eot-Round (suc left) r =
    on_eot_written-Round left (send_eot left) (send_eot-Round left) r.sender.output
      (write_bytes (eot ∷ []) r) (write_bytes-output (eot ∷ []) r)
