-- ===== src/ActionCenter.antt =====
-- internal/actioncenter: the actions that a decision package proposes, their approval and execution.
pub mod Model
pub mod Payloads
pub mod Store
pub mod Decide
pub mod Execute
