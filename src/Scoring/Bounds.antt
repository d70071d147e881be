-- ===== src/Scoring/Bounds.antt =====
-- engine/src/scoring: the range of the four signals and of the score that they are combined to.
use vyse.Prelude.{
  ℕ, ◌≡◌, ◌||◌, some, List, Text, is_empty, arith, inl, inr, Bool-cases, Option-cases,
}
use vyse.Float.{Float, zero_f, IsScore, IsOrdered, IsMonotone, IsAbsorbing}
use vyse.Float.Clamp.{clamp-IsScore}
use vyse.Clock.{DateTime}
use vyse.Words.{Unicode}
use vyse.Config.{ScoringConfig}
use vyse.Scoring.Tier.{compute_hybrid}
use vyse.Scoring.Velocity
use vyse.Scoring.Velocity.Window.{velocity-IsScore}
use vyse.Scoring.Divergence
use vyse.Scoring.Entropy.{Freq, inverse_bigram_entropy}
use vyse.Scoring.Entropy.Window.{inverse_bigram_entropy-IsScore}
use vyse.Scoring.Anomaly.{AnomalyModel, FeatureVector}
use vyse.Scoring.Anomaly.Model
use vyse.Scoring.Anomaly.Model.{percentile_75, z_scores, normalise}
use vyse.Scoring.Anomaly.Sort.{sort}

module _ {F : Type 0} ⦃f : Float F⦄ (laws : IsOrdered F) where
  zero-IsScore : IsScore {F = F} zero_f
  zero-IsScore = inr (laws.lit_num 0 0, laws.zero-le-one)

  divergence-IsScore : (current previous : List F) → IsScore (Divergence.compute current previous)
  unfolding Divergence.compute Divergence.cosine_similarity
  divergence-IsScore current previous = elim (Bool-cases (is_empty current || is_empty previous)) [
    | inl empty ↦ rw empty zero-IsScore
    | inr both ↦
        rw both
          (elim (Bool-cases
            (f.lt (f.mul (Divergence.norm current) (Divergence.norm previous)) f.epsilon)) [
              | inl small ↦ rw small zero-IsScore
              | inr fine ↦ rw fine (clamp-IsScore laws _)
            ])
  ]

module _ {F D : Type 0} ⦃f : Float F⦄ ⦃d : Float D⦄ (laws : IsOrdered F) (widen : F → D)
    (narrow : D → F) where
  anomaly-IsScore :
      (m : AnomalyModel D) (v : FeatureVector F) (a : F)
      → Model.score widen narrow m v ≡ some a
      → IsScore a
  unfolding Model.score normalise
  anomaly-IsScore m v a h = elim (Option-cases (percentile_75 (sort (z_scores widen m v)))) [
    | inl panic ↦ absurd (ground arith)
    | inr (p75, e) ↦
        let same : normalise narrow p75 ≡ a = ground arith in rw (← same) (clamp-IsScore laws _)
  ]

  -- All four signals, and the score that any configuration combines them to, lie in the unit interval
  -- or are NaN, whatever the history of the session is. (The anomaly signal is the one of a model that
  -- does not panic.)
  pub signals-IsScore :
      (mono : IsMonotone F) (nans : IsAbsorbing F) (u : Unicode) (values : Freq → List ℕ)
      (cfg : ScoringConfig F) (now : DateTime) (timestamps : List DateTime) (window max_rpm : F)
      (current previous : List F) (history : List Text) (n : ℕ) (m : AnomalyModel D)
      (features : FeatureVector F) (a : F)
      → Model.score widen narrow m features ≡ some a
      → let v = Velocity.compute now timestamps window max_rpm in
        let d = Divergence.compute current previous in
        let e = inverse_bigram_entropy {F = F} u values history n in
        IsScore v × IsScore d × IsScore e × IsScore a × IsScore (compute_hybrid v d e a cfg)
  unfolding compute_hybrid
  signals-IsScore mono nans u values cfg now timestamps window max_rpm current previous history n m
        features a scored =
      (
        velocity-IsScore now laws timestamps window max_rpm,
        divergence-IsScore laws current previous,
        inverse_bigram_entropy-IsScore u values laws mono nans history n,
        anomaly-IsScore m features a scored,
        clamp-IsScore laws _,
      )
