-- ===== src/Gateway.antt =====
-- packages/integrations/intercept-gateway/src.
pub mod History
pub mod MatchReplace
pub mod State
pub mod Approval
pub mod Intercept
pub mod Operator
pub mod Growth
pub mod Recorded
