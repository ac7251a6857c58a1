-- ===== src/Upload.antt =====
-- The upload of a resource: the cache of upload ids, and the commands that use it.
pub mod Files
pub mod Cache
pub mod File
pub mod Docker
