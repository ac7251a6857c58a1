-- ===== src/Tests.antt =====
-- The theorems at concrete inputs.
mod Commands
mod Concurrency
mod Logouts
mod Extensions
mod Readers
mod Shows
mod Runs
mod Pulls
mod Pushes
mod Uploads
mod Images
mod Ingester
mod Output
