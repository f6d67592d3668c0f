-- ===== src/Lab.antt =====
-- internal/lab: laboratory reports.
pub mod Decimal
pub mod Concentration
