-- ===== src/Lib.antt =====
-- A verification library for jellysync, a program that joins the media libraries of several
-- nodes: each node serves the changes of its own catalog, mirrors the catalogs of its peers,
-- elects one source for each item and writes a file for what a peer serves.
--
-- Catalog models internal/catalog.
--   Catalog/Entry, Hidden and Folders: the item on the wire (catalog.go Entry), the keys that hide
--     items (hidden.go) and the folders that exclude them (folders.go).
--   Catalog/Visibility: hiding and showing an item by its key (hidden.go SetHidden).
--   Catalog/Index: this node's own catalog and its refresh with the removal of old tombstones
--     (index.go Refresh, EnsureIndexed, gcTombstones). Index/Valid is its invariant, and
--     Index/Induction the principle that a refresh is a sequence of writes.
--   Catalog/Changes: one page of the change feed, and the checks of its handler (index.go Changes,
--     Entries; catalog.go ChangesHandler).
--   Catalog/Pull: a peer's feed followed into a mirror (pull.go pullPeer, applyChanges, loadCursor,
--     RequestResync). Pull/Follows is the invariant between an index and a mirror, Pull/Network the
--     two nodes as a step relation.
--   Catalog/Election and Catalog/Items: which source serves each item, and the table that keeps it
--     (catalog.go elect, writeElection).
--   Catalog/Local: the entries of the local library, less this program's own files (catalog.go
--     LocalEntries).
--   Catalog/Sync: the steps of one synchronisation in a row (catalog.go Sync, pull.go pullPeers and
--     pruneRemovedPeers).
--   Catalog/Status: the pages of films for the dashboard, with their filters and the search
--     (status.go servePagedMovies, ownerFilter, searchPattern).
-- Jellyfin models internal/jellyfin/client.go: what of a listing is real media in a library
--   (Jellyfin/Raw), and the items with the ids that all nodes share (Jellyfin/Build).
-- Strm models internal/strm/strm.go: Strm/Paths clean paths and the folders that go with a file,
--   Strm/Names the name of a file, Strm/Rows and Strm/Reconcile the files brought in line with the
--   table catalog_items.
-- Peers models internal/peers: the registry of peers and its table (Peers/Registry, registry.go), with
--   the heartbeats (Registry/Heartbeat, checkOnce), and the choice of an id (Peers/Ids, ids.go).
--   Registry/Steps has the operations as a step relation: a write that the database refuses, and
--   operations on one peer that overlap, are steps that are open to the peers named as disturbed.
-- Peerauth models internal/peerauth: Peerauth/Store the clients and invites (store.go), Peerauth/Auth
--   the callers of the peer port, its routes and its limiter (auth.go, and resolveCaller and peerMux of
--   internal/app/app.go).
-- Syncrun models internal/syncrun: the queue of sync requests and the loop that waits for the next
--   one (syncrun.go Request, Queue; waitForNextRun of internal/app/app.go). Syncrun/Local is one run
--   (RunLocal) with the status it shows (internal/syncstatus/syncstatus.go).
-- Config models the starting peers of internal/config/config.go (parsePeers).
-- Metrics models the traffic totals of internal/metrics/metrics.go.
--
-- A run reads the library into the index, pulls the peers, elects, and brings the files in line
-- with the items elected.
--
-- A refresh writes the index, a page reads it at a moment of its own, a pull writes a page and
-- the cursor it leads to at once, an election reads the index and all mirrors, and offers of a
-- peer count while the registry says so. A request on the peer port is matched against the
-- clients, the registry and the pending invites. A text is a list of bytes, and a Go map or a SQL
-- table with a key is an association list whose order stands for the iteration order. Revisions,
-- generations and times are natural numbers without an upper bound; years, seasons and episodes
-- are integers. The registry and the pairing store count nanoseconds, the others seconds.
--
-- A transaction is one function. In Peers, Peerauth, Metrics and Strm each write carries whether the
-- database takes it; elsewhere a database that fails is not modelled, and a transaction that fails
-- leaves the state as it was. JSON and HTTP carry values unchanged. What a peer, Jellyfin, a probe or
-- a name lookup answers, and the digest of an entry, are arguments. SQLite's LIKE and the order that
-- its ORDER BY gives to rows of the same name are parameters. Logs and durations are left out.
--
-- The loop of a pull takes its rounds as fuel: `head + 2` rounds are enough wherever a theorem
-- says that the pull ends, and a pull that never ends is one that runs after any number of
-- rounds. The choice of an id takes one round more than there are ids taken, and the removal of
-- empty folders as many as a path has names. Numbers are printed with 19 places, which an int of
-- 64 bits does not exceed.
--
-- The disk is a table of files by their clean path, with a test for each path that says whether it
-- can be read, written and removed during a run; that a file's name is a folder, and a walk that
-- fails on the way, are left out. SHA-256 and a new UUID are arguments. strings.ToLower is written
-- out for the runes whose lower case is ASCII, and strings.EqualFold for the one word it is asked
-- for.
--
-- Not modelled: the requests to Jellyfin, streaming, bit rates, TLS and the certificates, the
-- dashboard's views and handlers, the trigger of a peer's sync, the configuration but for its
-- peers, the database's schema and its migrations.
pub mod Common
pub mod Config
pub mod Catalog
pub mod Peers
pub mod Peerauth
pub mod Strm
pub mod Syncrun
pub mod Jellyfin
pub mod Metrics
