-- ===== src/Policy.antt =====
-- internal/policy: the PFAS rule packs and the classification of a batch by them.
pub mod Model
pub mod Classifier
pub mod RulePacks
