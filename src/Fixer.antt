-- ===== src/Fixer.antt =====
-- The syntactic remediation engine, internal/fixer.
pub mod Path
pub mod Yaml
pub mod Operation
pub mod Engine
pub mod Render
pub mod Apply
pub mod Rules
