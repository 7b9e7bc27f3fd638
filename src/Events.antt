-- ===== src/Events.antt =====
-- The audit events, internal/events.
pub mod Types
pub mod Validate
pub mod Flags
pub mod Patterns
pub mod Payloads
pub mod Containers
pub mod Accepted
pub mod Decode
