-- ===== src/Cpm.antt =====
-- src/cpm-filesystem.ts: CP/M files within CDBL-formatted disk images.
pub mod Layout
pub mod Exec
pub mod Sector
pub mod Block
pub mod Directory
pub mod Alloc
pub mod Names
pub mod Files
pub mod Listing
pub mod Format
mod Tests
