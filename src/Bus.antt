-- ===== src/Bus.antt =====
-- src/services/collision-validator.ts and src/services/resolver.ts: the cards of a machine profile on
-- its bus.
pub mod Profile
pub mod Validator
pub mod Validation
pub mod Resolver
pub mod Claimants
pub mod Memory
pub mod Sound
pub mod Resolved
pub mod Tests
pub mod Config
pub mod InRange
