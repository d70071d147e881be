-- ===== src/Scoring/Tier.antt =====
-- engine/src/scoring/mod.rs: the weighted hybrid score and the classification into tiers.
pub mod Classes
pub mod Hybrid
use vyse.Prelude.{ℕ, Bool, ◌&&◌, ◌||◌, if◌then◌else◌}
use vyse.Float.{Float, zero_f, one_f, clamp}
use vyse.Config.{ScoringConfig}

pub record Scores (F : Type 0) : Type 0 where
  pub v : F
  pub d : F
  pub e : F
  pub a : F
  pub intent_flagged : Bool
  pub hybrid : F

module _ {F : Type 0} ⦃f : Float F⦄ where
  abbrev pub weighted_sum : F → F → F → F → ScoringConfig F → F
  weighted_sum v d e a cfg =
      f.add
        (f.add (f.add (f.mul cfg.weight_velocity v) (f.mul cfg.weight_divergence d))
          (f.mul cfg.weight_entropy e))
        (f.mul cfg.weight_anomaly a)

  unfoldable pub compute_hybrid : F → F → F → F → ScoringConfig F → F
  compute_hybrid v d e a cfg = let score = weighted_sum v d e a cfg in clamp score zero_f one_f

  unfoldable pub classify_tier : F → F → Bool → ScoringConfig F → ℕ
  classify_tier hybrid duration_mins intent_flagged cfg =
      if intent_flagged
      then (if f.le cfg.tier3_score_threshold hybrid
            && f.lt cfg.tier3_min_duration_mins duration_mins
          then 3
          else 2)
      else (if f.le cfg.tier3_score_threshold hybrid
            && f.lt cfg.tier3_min_duration_mins duration_mins
          then 3
          else if f.le cfg.tier2_score_threshold hybrid
              || f.le cfg.tier2_min_duration_mins duration_mins
          then 2
          else 1)
