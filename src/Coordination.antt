-- ===== src/Coordination.antt =====
-- internal/coordination: the confirmation of a delivery by farmer, contractor and plant.
pub mod Model
pub mod Store
pub mod Steps
pub mod Documents
pub mod Invariant
pub mod Progress
