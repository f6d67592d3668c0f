-- ===== src/Tests.antt =====
-- Concrete inputs for the theorems, and what the definitions compute on them.
pub mod Standard
pub mod Policies
pub mod Placements
pub mod Rankings
pub mod Actions
pub mod Workflows
pub mod Decimals
pub mod Packages
pub mod Samples
pub mod Details
