-- ===== src/Scoring/Anomaly/Tests.antt =====
-- The model of engine/src/scoring/anomaly.rs on thousandths, and the theorems about it there.
use vyse.Prelude.{◌≡◌, refl, inl, none, some, List, [], ◌∷◌, ◌++◌}
use mathlib.Core.List.{Perm}
use vyse.Float.{IsScore}
use vyse.Float.Milli.{Milli, milli, nan, milli-IsOrdered, milli-IsAbsorbing}
use vyse.Scoring.Anomaly.{FeatureVector}
use vyse.Scoring.Anomaly.Stats
use vyse.Scoring.Anomaly.Model
use vyse.Scoring.Anomaly.Model.{normalise, z_scores, score, update}
use vyse.Scoring.Anomaly.Percentile.{IsSorted, score-percentile}
use vyse.Scoring.Anomaly.Global
use vyse.Scoring.Anomaly.Global.{
  Shared, global_model, Call, scored, updated, run_calls, run_calls-poisoned,
}

abbrev same : Milli → Milli
same x = x

abbrev normal : Milli → FeatureVector Milli
normal rpm = record {
  rpm = rpm;
  similarity = milli.lit 3 1;
  entropy_inv = milli.lit 15 2;
  prompt_len = milli.lit 120 0;
  duration_mins = milli.lit 1 0;
}

score-percentile_example :
    (a b c p75 e : Milli) × Perm
      (a ∷ b ∷ c ∷ p75 ∷ e ∷ [])
      (z_scores same Model.new (normal (milli.lit 2 0)))
    × IsSorted (a ∷ b ∷ c ∷ p75 ∷ e ∷ [])
    × (score same same Model.new (normal (milli.lit 2 0)) ≡ some (normalise same p75))
    × IsScore {F = Milli} (normalise same p75)
unfolding z_scores Stats.z_score Model.new
score-percentile_example =
    score-percentile milli-IsOrdered milli-IsOrdered same same Model.new (normal (milli.lit 2 0))
      (refl, (refl, (refl, (refl, (refl, tt)))))

abbrev before : List (Call Milli)
before = updated (normal (milli.lit 2 0)) ∷ scored (normal (milli.lit 1 0)) ∷ []

abbrev later : List (Call Milli)
later = scored (normal (milli.lit 1 0)) ∷ updated (normal (milli.lit 2 0)) ∷ []

run_calls-poisoned_example :
    (Global.score same same
        (run_calls same same global_model (before ++ updated (normal nan) ∷ later))
        (normal (milli.lit 1 0))
      ≡ none)
    × ((s : Shared Milli) × (Global.update same same
            (run_calls same same global_model (before ++ updated (normal nan) ∷ later))
            (normal (milli.lit 1 0))
          ≡ some s))
run_calls-poisoned_example =
    run_calls-poisoned same same milli-IsAbsorbing before later (normal nan)
      (normal (milli.lit 1 0)) (inl refl)
