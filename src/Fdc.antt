-- ===== src/Fdc.antt =====
-- src/protocol.ts, src/server.ts: the FDC+ serial drive protocol and the server that speaks it.
pub mod Protocol
pub mod Server
pub mod Loop
mod Tests
