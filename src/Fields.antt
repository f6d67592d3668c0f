-- ===== src/Fields.antt =====
-- internal/field: the candidate fields of a facility.
pub mod Model
pub mod Readiness
pub mod Geometry
