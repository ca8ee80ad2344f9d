-- ===== src/Catalog.antt =====
-- internal/catalog: the items that nodes exchange, and the choice of who serves each.
pub mod Entry
pub mod Hidden
pub mod Folders
pub mod Index
pub mod Changes
pub mod Pull
pub mod Election
pub mod Items
pub mod Visibility
pub mod Local
pub mod Sync
pub mod Status
pub mod Samples
pub mod Examples
