-- ===== src/Ingest.antt =====
-- internal/ingest: copying whitelisted entities from one charm store to another.
pub mod Entity
pub mod Merge
pub mod Resolve
pub mod Client
pub mod Transfer
pub mod Resources
pub mod Permissions
pub mod Trace
pub mod Run
pub mod Shim
pub mod Limiter
pub mod Space
pub mod Reopener
