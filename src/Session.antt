-- ===== src/Session.antt =====
-- src/drive-session.ts: a copy-on-write view of the mounted disks for one connection.
pub mod Bytes
pub mod State
pub mod Track
pub mod CopyOnWrite
pub mod Isolation
pub mod Engine
pub mod Stat
pub mod Served
pub mod Mount
pub mod Opened
pub mod Followed
pub mod Reattached
mod Tests
