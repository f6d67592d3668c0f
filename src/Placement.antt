-- ===== src/Placement.antt =====
-- internal/placement: the engine that ranks the candidate fields of a batch and allocates it.
pub mod Decimal
pub mod Model
pub mod Facts
pub mod Categories
pub mod Field
pub mod Rank
pub mod Allocate
pub mod Engine
