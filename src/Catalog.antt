-- ===== src/Catalog.antt =====
-- src/catalog.rs: the instruments that the venues list, and the subscriptions they allow.
pub mod Instrument
pub mod Wire
pub mod Rows
pub mod Store
pub mod Pages
pub mod Made
pub mod Timestamps
pub mod Listing
pub mod Fetch
pub mod Reading
pub mod Refresh
pub mod Validation
