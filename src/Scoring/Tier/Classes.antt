-- ===== src/Scoring/Tier/Classes.antt =====
-- engine/src/scoring/mod.rs, `classify_tier`: when each tier is given, and how it grows.
use vyse.Prelude.{◌≤◌, ◌≡◌, ◌↔◌, Bool, true, false, ◌||◌, arith, if◌then◌else◌}
use vyse.Float.{Float, IsNan, ◌≼◌, IsOrdered, IsAbsorbing}
use vyse.Float.Clamp.{lt_of_lt_of_le}
use vyse.Config.{ScoringConfig}
use vyse.Scoring.Tier.{classify_tier}

module _ {F : Type 0} ⦃f : Float F⦄ (hybrid duration_mins : F) (flagged : Bool)
    (cfg : ScoringConfig F) where
  -- The tier is 1, 2 or 3, and it is 3 exactly when the score has reached the Tier 3 threshold and
  -- the duration is above the Tier 3 minimum. The intent flag has no part in that.
  pub classify_tier-eq-3_iff :
      (1 ≤ classify_tier hybrid duration_mins flagged cfg)
      × (classify_tier hybrid duration_mins flagged cfg ≤ 3)
      × ((classify_tier hybrid duration_mins flagged cfg ≡ 3) ↔ (
          (cfg.tier3_score_threshold ≼ hybrid)
          × (f.lt cfg.tier3_min_duration_mins duration_mins ≡ true)))
  unfolding classify_tier
  classify_tier-eq-3_iff = ground arith

  -- A request is clean (Tier 1) exactly when it is not flagged, its score is below the Tier 2
  -- threshold and its duration below the Tier 2 minimum, if the Tier 2 threshold is at most the
  -- Tier 3 threshold.
  pub classify_tier-eq-1_iff :
      (laws : IsOrdered F)
      → cfg.tier2_score_threshold ≼ cfg.tier3_score_threshold
      → (classify_tier hybrid duration_mins flagged cfg ≡ 1) ↔ (
          (flagged ≡ false)
          × (f.le cfg.tier2_score_threshold hybrid ≡ false)
          × (f.le cfg.tier2_min_duration_mins duration_mins ≡ false))
  unfolding classify_tier
  classify_tier-eq-1_iff laws h =
      ground (arith, laws.le_trans cfg.tier2_score_threshold cfg.tier3_score_threshold hybrid h)

  -- A NaN score fails open: it is never Tier 3, and an unflagged session with a NaN score is
  -- judged by its duration alone.
  pub classify_tier-nan :
      (laws : IsAbsorbing F)
      → IsNan hybrid
      → classify_tier hybrid duration_mins flagged cfg
        ≡ (if flagged || f.le cfg.tier2_min_duration_mins duration_mins then 2 else 1)
  unfolding classify_tier
  classify_tier-nan laws n = ground (
    arith,
    laws.le_nan_right cfg.tier3_score_threshold hybrid n,
    laws.le_nan_right cfg.tier2_score_threshold hybrid n,
  )

-- The tier never falls when the score, the duration or the intent flag rises.
pub classify_tier_mono :
    {F : Type 0} ⦃f : Float F⦄ (laws : IsOrdered F) (h h' d d' : F) (flag flag' : Bool)
    (cfg : ScoringConfig F)
    → h ≼ h'
    → d ≼ d'
    → (flag ≡ true → flag' ≡ true)
    → classify_tier h d flag cfg ≤ classify_tier h' d' flag' cfg
unfolding classify_tier
classify_tier_mono ⦃f⦄ laws h h' d d' flag flag' cfg hh hd hf =
    let t3 = laws.le_trans cfg.tier3_score_threshold h h' in
    let t2 = laws.le_trans cfg.tier2_score_threshold h h' in
    let m2 = laws.le_trans cfg.tier2_min_duration_mins d d' in
    ground (arith, t3, t2, m2, lt_of_lt_of_le laws cfg.tier3_min_duration_mins d d')
