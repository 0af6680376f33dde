-- ===== src/Rom.antt =====
-- src/services/rom-image.ts: putting a binary or an Intel HEX file into an EPROM window.
pub mod Hex
pub mod Burn
pub mod Window
pub mod Printed
pub mod File
pub mod Tests
