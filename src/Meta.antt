-- ===== src/Meta.antt =====
-- The provider's side: backend/internal/meta.
pub mod Send
pub mod Events
pub mod Classify
pub mod Process
pub mod Webhook
pub mod Graph
pub mod Snapshot
pub mod Inventory
pub mod Facts
