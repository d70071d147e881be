-- ===== src/Scoring/Anomaly/Model.antt =====
-- engine/src/scoring/anomaly.rs, `AnomalyModel` and the two public functions over the global model.
use vyse.Prelude.{Option, none, some, List, [], ◌∷◌, get_elem?}
use vyse.Float.{Float, zero_f, one_f, clamp}
use vyse.Scoring.Anomaly.{FeatureVector, AnomalyModel}
use vyse.Scoring.Anomaly.Stats
use vyse.Scoring.Anomaly.Sort.{sort}

module _ {D : Type 0} ⦃d : Float D⦄ where
  unfoldable pub new : AnomalyModel D
  unfolding Stats.with_prior
  new = record {
    rpm = Stats.with_prior (d.lit 20 1) (d.lit 15 1);
    similarity = Stats.with_prior (d.lit 4 1) (d.lit 2 1);
    entropy_inv = Stats.with_prior (d.lit 2 1) (d.lit 15 2);
    prompt_len = Stats.with_prior (d.lit 1500 1) (d.lit 800 1);
    duration_mins = Stats.with_prior (d.lit 20 1) (d.lit 15 1);
  }

  -- `sorted[3]`
  abbrev pub percentile_75 : Option (List D) → Option D
  percentile_75 none = none
  percentile_75 (some sorted) = get_elem? sorted 3

module _ {F D : Type 0} ⦃d : Float D⦄ (widen : F → D) where
  unfoldable pub update : AnomalyModel D → FeatureVector F → AnomalyModel D
  update m v = record {
    rpm = Stats.update m.rpm (widen v.rpm);
    similarity = Stats.update m.similarity (widen v.similarity);
    entropy_inv = Stats.update m.entropy_inv (widen v.entropy_inv);
    prompt_len = Stats.update m.prompt_len (widen v.prompt_len);
    duration_mins = Stats.update m.duration_mins (widen v.duration_mins);
  }

  unfoldable pub z_scores : AnomalyModel D → FeatureVector F → List D
  z_scores m v =
      Stats.z_score m.rpm (widen v.rpm)
      ∷ Stats.z_score m.similarity (widen v.similarity)
      ∷ Stats.z_score m.entropy_inv (widen v.entropy_inv)
      ∷ Stats.z_score m.prompt_len (widen v.prompt_len)
      ∷ Stats.z_score m.duration_mins (widen v.duration_mins)
      ∷ []

module _ {F D : Type 0} ⦃f : Float F⦄ ⦃d : Float D⦄ (narrow : D → F) where
  -- the sigmoid of the percentile, cut to `f32`
  unfoldable pub normalise : D → F
  normalise p75 =
      let normalised =
        d.div one_f (d.add one_f (d.exp (d.mul (d.neg (d.lit 5 1)) (d.sub p75 (d.lit 20 1))))) in
      clamp (narrow normalised) zero_f one_f

  abbrev pub normalise? : Option D → Option F
  normalise? none = none
  normalise? (some p75) = some (normalise p75)

module _ {F D : Type 0} ⦃f : Float F⦄ ⦃d : Float D⦄ (widen : F → D) (narrow : D → F) where
  -- `none` is a panic
  unfoldable pub score : AnomalyModel D → FeatureVector F → Option F
  score m v = normalise? narrow (percentile_75 (sort (z_scores widen m v)))
