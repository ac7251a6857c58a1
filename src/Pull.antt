-- ===== src/Pull.antt =====
-- cmd/charm/charmcmd/pull.go and pullresource.go: what is downloaded from a store, and where it goes.
pub mod Machine
pub mod Images
pub mod Archive
pub mod Resource
