-- ===== src/Packages.antt =====
-- internal/decisionpackage: what is frozen for the review of a decision.
pub mod Model
pub mod Gaps
pub mod Actions
