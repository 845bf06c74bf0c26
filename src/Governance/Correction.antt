-- ===== src/Governance/Correction.antt =====
-- packages/governance/src/compile-correction.ts: an operator's words compiled to learned rules through
-- a closed table of phrases. Texts are read by their characters; `toLowerCase` and `toUpperCase` of
-- the host are parameters.
pub mod Atoms
pub mod Wording
pub mod Scopes
pub mod Phrases
pub mod Compiler
pub mod Frugal
pub mod Guarded
