-- ===== src/Scoring/Tier/Hybrid.antt =====
-- engine/src/scoring/mod.rs, `compute_hybrid`: its monotonicity.
use vyse.Float.{Float, zero_f, one_f, IsNum, ◌≼◌, IsOrdered, IsMonotone}
use vyse.Float.Clamp.{clamp_mono}
use vyse.Config.{ScoringConfig}
use vyse.Scoring.Tier.{weighted_sum, compute_hybrid}

module _ {F : Type 0} ⦃f : Float F⦄ where
  -- No weight is negative.
  pub record IsWeighted (cfg : ScoringConfig F) : Type 0 where
    pub velocity : zero_f ≼ cfg.weight_velocity
    pub divergence : zero_f ≼ cfg.weight_divergence
    pub entropy : zero_f ≼ cfg.weight_entropy
    pub anomaly : zero_f ≼ cfg.weight_anomaly

  -- The products and sums of the weighted sum are numbers.
  pub record IsDefined (v d e a : F) (cfg : ScoringConfig F) : Type 0 where
    pub velocity : IsNum (f.mul cfg.weight_velocity v)
    pub divergence : IsNum (f.mul cfg.weight_divergence d)
    pub entropy : IsNum (f.mul cfg.weight_entropy e)
    pub anomaly : IsNum (f.mul cfg.weight_anomaly a)
    pub two : IsNum (f.add (f.mul cfg.weight_velocity v) (f.mul cfg.weight_divergence d))
    pub three : IsNum (
        f.add
          (f.add (f.mul cfg.weight_velocity v) (f.mul cfg.weight_divergence d))
          (f.mul cfg.weight_entropy e))
    pub total : IsNum (weighted_sum v d e a cfg)

  module _ (laws : IsOrdered F) (mono : IsMonotone F) where
    open mono use {add_mono, mul_mono}

    -- With weights that are not negative a signal that rises never lowers the hybrid score.
    pub compute_hybrid-mono :
        (v v' d d' e e' a a' : F) (cfg : ScoringConfig F)
        → IsWeighted cfg
        → IsDefined v d e a cfg
        → IsDefined v' d' e' a' cfg
        → v ≼ v'
        → d ≼ d'
        → e ≼ e'
        → a ≼ a'
        → compute_hybrid v d e a cfg ≼ compute_hybrid v' d' e' a' cfg
    unfolding compute_hybrid
    compute_hybrid-mono v v' d d' e e' a a' cfg w p q hv hd he ha =
        let mv = mul_mono cfg.weight_velocity v v' w.velocity hv p.velocity q.velocity in
        let md = mul_mono cfg.weight_divergence d d' w.divergence hd p.divergence q.divergence in
        let me = mul_mono cfg.weight_entropy e e' w.entropy he p.entropy q.entropy in
        let ma = mul_mono cfg.weight_anomaly a a' w.anomaly ha p.anomaly q.anomaly in
        let s2 = add_mono _ _ _ _ mv md p.two q.two in
        let s3 = add_mono _ _ _ _ s2 me p.three q.three in
        let s4 = add_mono _ _ _ _ s3 ma p.total q.total in
        clamp_mono laws _ _ zero_f one_f laws.zero-le-one s4
