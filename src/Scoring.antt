-- ===== src/Scoring.antt =====
-- engine/src/scoring: the four signals, the hybrid score and the tiers.
pub mod Tier
pub mod Velocity
pub mod Divergence
pub mod Entropy
pub mod Anomaly
pub mod Bounds
mod Tests
