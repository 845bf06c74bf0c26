-- ===== src/Requirements.antt =====
-- The store of customer requirements, its port, and the grading of agents against them.
pub mod Port
pub mod Store
pub mod Checker
