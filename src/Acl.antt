-- ===== src/Acl.antt =====
-- cmd/charm/charmcmd/grant.go and revoke.go: the two commands that change the access lists.
pub mod Lists
pub mod Server
pub mod Grant
pub mod Revoke
