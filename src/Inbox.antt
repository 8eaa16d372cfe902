-- ===== src/Inbox.antt =====
-- The guarded inbox (backend/internal/inbox): one child module for each part.
pub mod Error
pub mod Time
pub mod Text
pub mod Amount
pub mod Interval
pub mod Exposure
pub mod Delivery
pub mod Guard
pub mod Estimate
pub mod Store
pub mod Evaluation
pub mod Dispatch
pub mod Outcome
pub mod Workers
pub mod Submit
pub mod Commands
pub mod Receive
pub mod Registry
pub mod Billing
pub mod Content
pub mod Events
pub mod Rates
pub mod Live
