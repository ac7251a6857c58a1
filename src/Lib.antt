-- ===== src/Lib.antt =====
-- charmstore-client: two programs for a store of charms and bundles. charm-ingest copies the entities
-- of a whitelist from one store to another; charm is the command line of a store.
--
-- The parts, the files that model them, and the code:
--   Charm            ParseURL of internal/charm/charm.go, over the parser of the library it wraps.
--   Ingest           internal/ingest/ingest.go. A whitelist is resolved against the source store
--                    (Resolve: resolveWhitelist, sendResolvedURLs) and merged to base entities (Merge),
--                    which a run (Run: ingest) copies in phases: charms, resources, bundles,
--                    permissions (Transfer, Resources, Permissions). Entity and Client hold the data
--                    and the two interfaces of the stores; Run/Complete is about what a run leaves.
--   Ingest/Shim      internal/ingest/shim.go, which makes those interfaces of a client library.
--   Ingest/Limiter   the limiter of ingest.go, as steps of the goroutines that use it.
--   Ingest/Space     getDisk and Close of ingest.go, as steps of several transfers.
--   Ingest/Reopener  seekReopener of ingest.go, from which an archive is uploaded.
--   Whitelist        cmd/charm-ingest/whitelist.go, the file that says what to copy.
--   Iomon            internal/iomon: a worker that passes the progress of a transfer on (Monitor)
--                    and the line on the terminal that shows it (Printer).
--   Acl              cmd/charm/charmcmd/grant.go and revoke.go, with their list helpers (Lists).
--   Metadata         show.go (Show, Summary) and set.go (Set) in cmd/charm/charmcmd, with their fields.
--   Flags            the flag values of cmd.go in cmd/charm/charmcmd and of cmd/charm-ingest/main.go,
--                    and release.go and attach.go in cmd/charm/charmcmd (Commands).
--   Terms            cmd/charm/charmcmd/terms.go.
--   Logout           cmd/charm/charmcmd/logout.go.
--   Plugins          cmd/charm/charmcmd/plugin.go: the search for plugins and the cache of their
--                    descriptions, the file of the cache (Disk), and the command that runs one (Command).
--   Push             cmd/charm/charmcmd/push.go: the command, and the logs of version control (Vcs).
--   Pull             cmd/charm/charmcmd/pull.go (Archive) and pullresource.go (Resource), over a machine
--                    with files and archives (Machine) and docker (Images).
--   Upload           the upload of resources in cmd/charm/charmcmd: resource.go (File, Docker), and the
--                    cache of upload ids in uploadidcache.go (Cache) over the file system (Files), with
--                    its specification (Cache/Spec).
--   Base             what they share: errors with causes, maps as association lists, Go's int, text
--                    as lists of bytes, sorting.
--   Tests            runs at concrete inputs, and applications of the theorems.
--
-- The state is passed explicitly. The destination of an ingestion is an arbitrary `Client`: a type of
-- states and an operation for each request, which may fail in any way; the log of the requests in
-- Ingest/Trace is such a client. A Go error is an `Error` with its cause, as `errgo` keeps it. A Go map is
-- an association list, in the order in which `range` meets its keys, which is any order. A Go int is
-- an integer; where the code does arithmetic on it the bounds are written out.
--
-- Loops are structural recursion, but for two with fuel. The two nested loops of `unique` take the
-- length of the list, which is enough since each round takes an item off the list or goes past
-- one; the search of logout takes more rounds than there are caveats in the jar, which is enough since
-- no URL is searched twice. Resolving a whitelist follows bundles one level deep: the code refuses
-- a bundle inside a bundle.
--
-- Goroutines: the entities of a whitelist may arrive in any order, and for every order it is stated
-- which are there, their current channels and their resource revisions; the limiter and the disk
-- space are step relations over every order of their steps; the transfers of one phase of a run
-- work on different entities and are taken one after the other.
--
-- Not modelled: progressDisplay of cmd.go, whose methods use the printer without a lock; HTTP, the
-- file system, the terminal, version control and docker, which libraries and other programs
-- provide; the layout of tables; the registration of the commands; and the commands of
-- cmd/charm/charmcmd that are little more than one request: list, list-resources, whoami,
-- list-users, create-user, delete-user and login.
pub mod Base
pub mod Charm
pub mod Acl
pub mod Ingest
pub mod Whitelist
pub mod Iomon
pub mod Flags
pub mod Metadata
pub mod Logout
pub mod Plugins
pub mod Pull
pub mod Push
pub mod Terms
pub mod Upload
mod Tests
