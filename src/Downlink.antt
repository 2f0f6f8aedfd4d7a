-- ===== src/Downlink.antt =====
-- internal/downlink: reliable delivery of messages to devices.
pub mod Message
pub mod Identity
pub mod Policy
pub mod Store
pub mod Marks
pub mod Terminal
pub mod Outbox
pub mod Fairness
pub mod Retry
pub mod Retention
pub mod Calls
pub mod Requests
pub mod Service
pub mod System
pub mod Delivery
pub mod Submission
pub mod Rounds
pub mod Trace
pub mod Handler
mod Examples
