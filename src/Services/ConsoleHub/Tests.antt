-- ===== src/Services/ConsoleHub/Tests.antt =====
-- Witnesses for src/services/console-hub.ts: a prompt on a console with two subscribers.
use bitsby.Prelude.{◌+◌, ◌++◌, ◌≡◌, refl, [], ◌∷◌, ◌++◌, arith, max, ◌-◌, drop}
use bitsby.Services.ConsoleHub.{
  max_console_buffer, ConsoleHub, new_hub, on_output, read_since, subscribe, joined, same, outputs,
  subscribes, Steps, stay, next,
}
use bitsby.Services.ConsoleHub.Window.{read_since-window, read_since-again}
use bitsby.Services.ConsoleHub.Fanout.{received, subscriber-received}

abbrev h1 : ConsoleHub
h1 = on_output b'A' new_hub

abbrev h2 : ConsoleHub
h2 = on_output (b'>' + 256) h1

abbrev joined_hub : ConsoleHub
joined_hub = subscribe 7 h2

abbrev h3 : ConsoleHub
h3 = on_output b'!' (subscribe 8 joined_hub)

prompt-Steps : Steps new_hub (b'A' ∷ b'>' ∷ []) (same ∷ same ∷ []) h2
prompt-Steps =
    next new_hub h1 h2 (b'A' ∷ []) (b'>' ∷ []) same (same ∷ []) (outputs b'A' new_hub)
      (next h1 h2 h2 (b'>' ∷ []) [] same [] (outputs (b'>' + 256) h1) (stay h2))

later-Steps : Steps joined_hub (b'!' ∷ []) (joined 8 ∷ same ∷ []) h3
later-Steps =
    next joined_hub (subscribe 8 joined_hub) h3 [] (b'!' ∷ []) (joined 8) (same ∷ [])
      (subscribes 8 joined_hub)
      (next (subscribe 8 joined_hub) h3 h3 (b'!' ∷ []) [] same []
        (outputs b'!' (subscribe 8 joined_hub)) (stay h3))

handed : received 7 h3.delivered ≡ (b'!' ∷ [])
unfolding on_output subscribe
handed = refl

read_since-window_example :
    read_since 1 h2 ≡ (drop (max 1 (2 - max_console_buffer)) (b'A' ∷ b'>' ∷ []), 2)
read_since-window_example =
    read_since-window h2 (b'A' ∷ b'>' ∷ []) (same ∷ same ∷ []) 1 prompt-Steps

read_since-again_example : read_since (read_since 0 h2).1 h3 ≡ (b'!' ∷ [], 3)
read_since-again_example =
    read_since-again h2 h3 (b'A' ∷ b'>' ∷ []) (b'!' ∷ []) (same ∷ same ∷ [])
      (joined 7 ∷ joined 8 ∷ same ∷ []) 0 prompt-Steps
      (next h2 joined_hub h3 [] (b'!' ∷ []) (joined 7) (joined 8 ∷ same ∷ []) (subscribes 7 h2)
        later-Steps)
      (omega arith)

subscriber-received_example : received 7 h3.delivered ≡ received 7 h2.delivered ++ (b'!' ∷ [])
subscriber-received_example =
    subscriber-received 7 h2 h3 (b'A' ∷ b'>' ∷ []) (b'!' ∷ []) (same ∷ same ∷ [])
      (joined 8 ∷ same ∷ []) prompt-Steps later-Steps (refl, (refl, tt))
