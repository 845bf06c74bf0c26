-- ===== src/Policy.antt =====
-- packages/policy/src: the proxy's policy engine.
pub mod Wildcard
pub mod Scope
pub mod Decision
pub mod Conditions
pub mod Engine
pub mod Store
pub mod Narrow
pub mod Queue
pub mod Escalation
