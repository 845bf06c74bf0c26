-- ===== src/Contracts.antt =====
-- packages/contracts/src: the shapes that cross component boundaries, and their validation.
pub mod Value
pub mod Action
pub mod PolicyRule
pub mod Audit
pub mod AgentOutput
pub mod Correction
pub mod EnforcementAction
pub mod Requirement
pub mod Zod
pub mod ActionGate
pub mod ApprovalGate
pub mod Parsing
pub mod Redact
pub mod CanonicalHash
pub mod Canonical
pub mod Objects
