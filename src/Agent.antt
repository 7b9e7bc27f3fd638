-- ===== src/Agent.antt =====
-- The control plane, internal/agent.
pub mod State
pub mod Ids
pub mod Ring
pub mod Remediations
pub mod Ingest
pub mod Listing
