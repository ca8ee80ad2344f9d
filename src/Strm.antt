-- ===== src/Strm.antt =====
-- internal/strm: the files that point Jellyfin at what a peer serves.
pub mod Paths
pub mod Names
pub mod Bounds
pub mod Rows
pub mod Reconcile
pub mod Cleanup
pub mod Truncate
pub mod Examples
