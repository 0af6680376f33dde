-- ===== src/Replay.antt =====
-- src/replay-engine.ts: sending a file to the terminal port as if it were typed.
pub mod Lines
pub mod Events
pub mod Engine
pub mod Sent
pub mod Sending
pub mod Delivered
pub mod Tests
pub mod Normal
pub mod Twice
