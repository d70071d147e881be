-- ===== src/Scoring/Tests.antt =====
-- Runs of engine/src/scoring on thousandths, and the theorems at concrete inputs.
use vyse.Prelude.{
  some, none, ℕ, ◌^◌, ◌*◌, ◌≤◌, ◌<◌, ◌≡◌, refl, ◌↔◌, true, false, List, [], ◌∷◌, Text, codes,
  length, arith, All, ◌==◌,
}
use vyse.Float.{IsScore, ◌≼◌}
use vyse.Float.Milli.{Milli, milli, nan, milli-IsOrdered, milli-IsMonotone, milli-IsAbsorbing}
use vyse.Config.Tests.{scoring}
use vyse.Config.{ScoringConfig}
use vyse.Scoring.Tier.{compute_hybrid, classify_tier}
use vyse.Scoring.Tier.Classes.{classify_tier-eq-3_iff, classify_tier-nan, classify_tier_mono}
use vyse.Scoring.Velocity as Velocity
use vyse.Scoring.Velocity.{in_window, weighted_rpm}
use vyse.Scoring.Divergence as Divergence
use vyse.Words.{Unicode, split_whitespace}
use vyse.Scoring.Entropy.{
  Bigram, Freq, same_bigram, bigrams, count_bigram, count_all, count_prompts, no_counts,
  tail_window, inverse_bigram_entropy,
}
use vyse.Scoring.Anomaly.{FeatureVector}
use vyse.Scoring.Anomaly.Model
use vyse.Scoring.Anomaly.Sort
use vyse.Scoring.Anomaly.Stats
use vyse.Scoring.Bounds.{signals-IsScore}
use vyse.Scoring.Entropy.Frequency.{
  frequency, occurrences, all_bigrams, total_of, count_prompts-frequency,
}

abbrev cfg : ScoringConfig Milli
cfg = scoring (milli.lit 25 2)

-- The cases of the tests in scoring/mod.rs.
classify_tests :
    (classify_tier (milli.lit 30 2) (milli.lit 5 1) false cfg ≡ 1)
    × (classify_tier (milli.lit 55 2) (milli.lit 0 0) false cfg ≡ 2)
    × (classify_tier (milli.lit 40 2) (milli.lit 2 0) false cfg ≡ 2)
    × (classify_tier (milli.lit 95 2) (milli.lit 5 0) false cfg ≡ 2)
    × (classify_tier (milli.lit 95 2) (milli.lit 11 0) false cfg ≡ 3)
    × (classify_tier (milli.lit 10 2) (milli.lit 1 1) true cfg ≡ 2)
    × (compute_hybrid (milli.lit 1 0) (milli.lit 1 0) (milli.lit 1 0) (milli.lit 1 0) cfg
        ≡ milli.lit 1 0)
unfolding classify_tier compute_hybrid
classify_tests = (refl, refl, refl, refl, refl, refl, refl)

-- Twenty minutes at a low score: not the `2 ≤ duration < 10` of the table, and Tier 2 all the same.
beyond_table : classify_tier (milli.lit 10 2) (milli.lit 20 0) false cfg ≡ 2
unfolding classify_tier
beyond_table = refl

classify_tier-eq-3_example :
    (1 ≤ classify_tier (milli.lit 20 2) (milli.lit 40 0) true cfg)
    × (classify_tier (milli.lit 20 2) (milli.lit 40 0) true cfg ≤ 3)
    × ((classify_tier (milli.lit 20 2) (milli.lit 40 0) true cfg ≡ 3)
        ↔ ((milli.lit 90 2 ≼ milli.lit 20 2) × (milli.lt (milli.lit 10 0) (milli.lit 40 0) ≡ true)))
classify_tier-eq-3_example = classify_tier-eq-3_iff (milli.lit 20 2) (milli.lit 40 0) true cfg

classify_tier-nan_example : classify_tier nan (milli.lit 1 0) false cfg ≡ 1
classify_tier-nan_example = classify_tier-nan nan (milli.lit 1 0) false cfg milli-IsAbsorbing refl

classify_tier_mono_example :
    classify_tier (milli.lit 20 2) (milli.lit 1 0) false cfg
    ≤ classify_tier (milli.lit 95 2) (milli.lit 11 0) true cfg
classify_tier_mono_example =
    classify_tier_mono milli-IsOrdered (milli.lit 20 2) (milli.lit 95 2) (milli.lit 1 0)
      (milli.lit 11 0) false true cfg refl refl (λ _. refl)

abbrev low : Milli
low = milli.lit 1 1

abbrev high : Milli
high = milli.lit 6 1

-- Ten minutes after the first of three requests; the window is five minutes.
abbrev now : ℕ
now = 600 * 10 ^ 9

abbrev recent : List ℕ
recent = 480 * 10 ^ 9 ∷ 595 * 10 ^ 9 ∷ []

-- With `max_rpm = 0` an idle session has a NaN V-Score.
idle_nan : Velocity.compute now [] (milli.lit 5 0) (milli.lit 0 0) ≡ nan
unfolding Velocity.compute weighted_rpm
idle_nan = refl

-- ASCII tables.
abbrev ascii : Unicode
ascii = record {
  is_whitespace = λ c. c == 32;
  is_alphabetic = λ c. true;
  is_uppercase = λ c. false;
  to_lowercase = λ t. t;
  trim = λ t. t;
}

abbrev values : Freq → List ℕ
values [] = []
values ((k, n) ∷ rest) = n ∷ values rest

abbrev history : List Text
history = codes "show me weights" ∷ codes "show me" ∷ []

entropy : Unit {0}
unfolding inverse_bigram_entropy count_prompts count_all count_bigram bigrams split_whitespace
    tail_window same_bigram
entropy = tt

abbrev same : Milli → Milli
same x = x

abbrev features : FeatureVector Milli
features = record {
  rpm = milli.lit 2 0;
  similarity = milli.lit 3 1;
  entropy_inv = milli.lit 15 2;
  prompt_len = milli.lit 120 0;
  duration_mins = milli.lit 1 0;
}

-- The anomaly signal of these features under the initial model.
abbrev anomaly : Milli
anomaly = elim (Model.score same same Model.new features) [ some a ↦ a | none ↦ nan ]

abbrev vec : List Milli
vec = milli.lit 6 1 ∷ milli.lit 8 1 ∷ []

signals-IsScore_example :
    let v = Velocity.compute now recent (milli.lit 5 0) (milli.lit 30 0) in
    let d = Divergence.compute vec vec in
    let e = inverse_bigram_entropy {F = Milli} ascii values history 2 in
    IsScore v
    × IsScore d
    × IsScore {F = Milli} e
    × IsScore {F = Milli} anomaly
    × IsScore (compute_hybrid v d e anomaly cfg)
signals-IsScore_example =
    signals-IsScore milli-IsOrdered same same milli-IsMonotone milli-IsAbsorbing ascii values cfg
      now recent (milli.lit 5 0) (milli.lit 30 0) vec vec history 2 Model.new features anomaly
      (unfold Model.score Model.new Model.z_scores Stats.z_score Sort.sort Sort.insert in refl)

-- One-word prompts have no bigrams: the most repetitive history of them scores 0.
one_word :
    inverse_bigram_entropy {F = Milli} ascii values (codes "a" ∷ codes "a" ∷ []) 20 ≡ milli.lit 0 0
unfolding entropy
one_word = refl

count_prompts-frequency_example :
    let c = count_prompts ascii history no_counts in
    ((b : Bigram) → frequency b c.freq ≡ occurrences b (all_bigrams ascii history))
    × (c.total ≡ length (all_bigrams ascii history))
    × (total_of c.freq ≡ c.total)
    × All (λ e. (1 ≤ e.1) × (e.1 ≤ c.total)) c.freq
count_prompts-frequency_example = count_prompts-frequency ascii history (three)
  where
    three : length (all_bigrams ascii history) < 2 ^ 32
    three = unfold all_bigrams bigrams split_whitespace in omega arith
