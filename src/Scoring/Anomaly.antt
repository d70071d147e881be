-- ===== src/Scoring/Anomaly.antt =====
-- engine/src/scoring/anomaly.rs: the online model behind the A-Score. `F` is `f32` and `D` is `f64`,
-- with `widen` and `narrow` for the casts between them. The records stand here, the operations in
-- the modules below; the global model with its lock is an explicit state.
pub mod Stats
pub mod Sort
pub mod Model
pub mod Percentile
pub mod Poison
pub mod Global
mod Tests

pub record FeatureVector (F : Type 0) : Type 0 where
  pub rpm : F
  pub similarity : F
  pub entropy_inv : F
  pub prompt_len : F
  pub duration_mins : F

pub record FeatureStats (D : Type 0) : Type 0 where
  pub count : D
  pub mean : D
  pub m2 : D

pub record AnomalyModel (D : Type 0) : Type 0 where
  pub rpm : FeatureStats D
  pub similarity : FeatureStats D
  pub entropy_inv : FeatureStats D
  pub prompt_len : FeatureStats D
  pub duration_mins : FeatureStats D
