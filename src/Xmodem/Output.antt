-- ===== src/Xmodem/Output.antt =====
-- What each step of `send` in src/xmodem-sender.ts adds to the bytes that are written.
use bitsby.Prelude.{
  ℕ, ◌≡◌, refl, ◌∙◌, true, false, Option, none, some, List, [], ◌∷◌, ◌++◌, if◌then◌else◌,
}
use bitsby.Xmodem.Wait.{
  Event, received, elapsed, written, write_failed, live, Sender, Wait, Run, handle_incoming_data,
  cancel, try_resolve, resume, deliver, await_byte, wait_for_byte,
}
use bitsby.Xmodem.Send.{await_read, await_write, write_bytes}

abbrev pub output_of : {A : Type 0} → A × Run → List (List ℕ)
output_of x = x.1.sender.output

cancel-output : (s : Sender) → (cancel s).output ≡ s.output
unfolding cancel
cancel-output s =
    elim s.is_running
      as (λ t.
        (if t then record s { is_cancelled = true; data_resolvers = [] } else s).output
        ≡ s.output) [ true ↦ refl | false ↦ refl ]

await_write-output : (es : List Event) (s : Sender) → (await_write es s).1.sender.output ≡ s.output
unfolding await_write handle_incoming_data
await_write-output [] s = refl
await_write-output (received bytes ∷ es) s = await_write-output es (handle_incoming_data bytes s).1
await_write-output (elapsed ∷ es) s = await_write-output es s
await_write-output (Event.cancelled ∷ es) s = await_write-output es (cancel s) ∙ cancel-output s
await_write-output (written ∷ es) s = refl
await_write-output (write_failed ∷ es) s = refl

pub await_read-output : (es : List Event) (s : Sender) → (await_read es s).output ≡ s.output
unfolding await_read handle_incoming_data
await_read-output [] s = refl
await_read-output (received bytes ∷ es) s = await_read-output es (handle_incoming_data bytes s).1
await_read-output (elapsed ∷ es) s = await_read-output es s
await_read-output (Event.cancelled ∷ es) s = await_read-output es (cancel s) ∙ cancel-output s
await_read-output (written ∷ es) s = await_read-output es s
await_read-output (write_failed ∷ es) s = await_read-output es s

pub write_bytes-output :
    (bytes : List ℕ) (r : Run)
    → (write_bytes bytes r).1.sender.output ≡ r.sender.output ++ (bytes ∷ [])
unfolding write_bytes
write_bytes-output bytes r =
    await_write-output r.events (record r.sender { output = r.sender.output ++ (bytes ∷ []) })

deliver-output :
    (wait : Sender → Wait × Run) (es : List Event) (s : Sender) (x : Option ℕ × Sender)
    → ((s' : Sender) → (wait s').1.sender.output ≡ s'.output)
    → x.1.output ≡ s.output
    → (deliver wait es x).1.sender.output ≡ s.output
deliver-output wait es s (some b, s') h e = e
deliver-output wait es s (none, s') h e = h s' ∙ e

await_byte-output : (es : List Event) (s : Sender) → (await_byte es s).1.sender.output ≡ s.output
unfolding await_byte handle_incoming_data
await_byte-output [] s = refl
await_byte-output (received bytes ∷ es) s =
    deliver-output (await_byte es) es s (handle_incoming_data bytes s) (await_byte-output es) refl
await_byte-output (elapsed ∷ es) s = refl
await_byte-output (Event.cancelled ∷ es) s = cancel-output s
await_byte-output (written ∷ es) s = await_byte-output es s
await_byte-output (write_failed ∷ es) s = await_byte-output es s

resume-output :
    (expected : List ℕ) (r : Run) (found : Option (ℕ × List ℕ))
    → (resume expected r found).1.sender.output ≡ r.sender.output
resume-output expected r (some (b, rest)) = refl
resume-output expected r none =
    await_byte-output r.events
      (record r.sender { data_resolvers = r.sender.data_resolvers ++ (live expected ∷ []) })

pub wait_for_byte-output :
    (expected : List ℕ) (r : Run) → (wait_for_byte expected r).1.sender.output ≡ r.sender.output
unfolding wait_for_byte
wait_for_byte-output expected r =
    resume-output expected r (try_resolve expected r.sender.incoming_buffer)
