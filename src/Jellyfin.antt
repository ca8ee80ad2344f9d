-- ===== src/Jellyfin.antt =====
-- internal/jellyfin: the local library.
pub mod Raw
pub mod Build
pub mod Listing
pub mod Roots
pub mod Examples
