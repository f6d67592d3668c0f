-- ===== src/Evidence.antt =====
-- internal/evidence: the physical evidence on a field, sampled at points.
pub mod Model
pub mod Aggregation
