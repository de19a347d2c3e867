-- ===== src/Data.antt =====
-- axrl/data: the rollout data path.
pub mod Sample
pub mod TokenTrace
pub mod Conversation
pub mod RolloutTrace
pub mod Packing
pub mod GlobalBatches
