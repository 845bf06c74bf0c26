-- ===== src/Governance.antt =====
-- packages/governance/src.
pub mod Ledger
pub mod Enforcement
pub mod Journal
pub mod PolicyAudit
pub mod Correction
