-- ===== src/Scoring/Anomaly/Stats.antt =====
-- engine/src/scoring/anomaly.rs, `FeatureStats`: running statistics of one feature.
use vyse.Prelude.{if◌then◌else◌}
use vyse.Float.{Float, one_f, max_f}
use vyse.Scoring.Anomaly.{FeatureStats}

module _ {D : Type 0} ⦃d : Float D⦄ where
  unfoldable pub with_prior : D → D → FeatureStats D
  with_prior prior_mean prior_std = record {
    count = d.lit 100 0;
    mean = prior_mean;
    m2 = d.mul (d.mul prior_std prior_std) (d.sub (d.lit 100 0) one_f);
  }

  -- Welford's algorithm
  unfoldable pub update : FeatureStats D → D → FeatureStats D
  update s value =
      let count = d.add s.count one_f in
      let delta = d.sub value s.mean in
      let mean = d.add s.mean (d.div delta count) in
      let delta2 = d.sub value mean in
      record { count = count; mean = mean; m2 = d.add s.m2 (d.mul delta delta2) }

  unfoldable pub variance : FeatureStats D → D
  variance s = if d.lt s.count (d.lit 2 0) then one_f else d.div s.m2 (d.sub s.count one_f)

  unfoldable pub std_dev : FeatureStats D → D
  unfolding variance
  std_dev s = max_f (d.sqrt (variance s)) (d.lit 1 2)

  unfoldable pub z_score : FeatureStats D → D → D
  unfolding std_dev
  z_score s value = d.div (d.abs (d.sub value s.mean)) (std_dev s)
