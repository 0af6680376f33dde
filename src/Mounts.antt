-- ===== src/Mounts.antt =====
-- src/mount-registry.ts, src/client-mount-registry.ts: what image is mounted on each drive.
pub mod Registry
pub mod Epochs
pub mod Entries
pub mod Clients
pub mod Overrides
pub mod Repointed
pub mod Renamed
mod Tests
