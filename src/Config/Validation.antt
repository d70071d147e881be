-- ===== src/Config/Validation.antt =====
-- engine/src/config.rs, `Config::validate` and `Config::load`: what an accepted configuration
-- satisfies, and what slips through.
use vyse.Prelude.{
  ◌≡◌, ◌≢◌, ◌↔◌, refl, ◌⊎◌, inl, inr, false, not, ◌&&◌, List, [], Text, codes, Result, ok, err,
  arith, is_empty, is_empty_iff, text_eq, text_eq_iff, Result-cases,
}
use vyse.Float.{Float, zero_f, one_f, IsNan, IsAbsorbing}
use vyse.Config.{Config, weight_sum, bad_weights, bad_ratio, validate}
use vyse.Config.Defaults.{Value, load, from_load, defaults}

-- What `validate` establishes: the secrets are there, no synonym ratio compares as at most 0.0 or as
-- above 1.0, and the distance of the sum of the weights from 1.0 does not compare as above 0.01. A
-- NaN passes each of these comparisons.
pub record IsValid {F : Type 0} ⦃f : Float F⦄ (cfg : Config F) : Type 0 where
  pub weights : f.lt (f.lit 1 2) (f.abs (f.sub (weight_sum cfg) one_f)) ≡ false
  pub redis_url : cfg.store.redis_url ≢ []
  pub database_url : cfg.store.database_url ≢ []
  pub api_key : (cfg.llm.api_key ≢ []) ⊎ (cfg.llm.provider ≡ codes "ollama")
  pub tier2_above : f.le cfg.defence.tier2_synonym_ratio zero_f ≡ false
  pub tier2_below : f.lt one_f cfg.defence.tier2_synonym_ratio ≡ false
  pub tier3_above : f.le cfg.defence.tier3_synonym_ratio zero_f ≡ false
  pub tier3_below : f.lt one_f cfg.defence.tier3_synonym_ratio ≡ false

module _ {F : Type 0} ⦃f : Float F⦄ (cfg : Config F) where
  -- The six tests of `validate`, all passed.
  record Passes : Type 0 where
    weights : bad_weights cfg ≡ false
    redis_url : is_empty cfg.store.redis_url ≡ false
    database_url : is_empty cfg.store.database_url ≡ false
    api_key : (is_empty cfg.llm.api_key && not (text_eq cfg.llm.provider (codes "ollama"))) ≡ false
    tier2 : bad_ratio cfg.defence.tier2_synonym_ratio ≡ false
    tier3 : bad_ratio cfg.defence.tier3_synonym_ratio ≡ false

  IsValid→Passes : IsValid cfg → Passes
  unfolding bad_weights bad_ratio
  IsValid→Passes v = ground (
    arith,
    is_empty_iff cfg.store.redis_url,
    is_empty_iff cfg.store.database_url,
    is_empty_iff cfg.llm.api_key,
    text_eq_iff cfg.llm.provider (codes "ollama"),
  )

  Passes→IsValid : Passes → IsValid cfg
  unfolding bad_weights bad_ratio
  Passes→IsValid p = ground (
    arith,
    is_empty_iff cfg.store.redis_url,
    is_empty_iff cfg.store.database_url,
    is_empty_iff cfg.llm.api_key,
    text_eq_iff cfg.llm.provider (codes "ollama"),
  )

  module _ {L : Type 0} (show : F → Text) where
    validate→Passes : validate show {L = L} cfg ≡ ok tt → Passes
    unfolding validate
    validate→Passes h = ground arith

    Passes→validate : Passes → validate show {L = L} cfg ≡ ok tt
    unfolding validate
    Passes→validate p = ground arith

-- `validate` accepts a configuration exactly when it passes the six tests.
validate_iff :
    {F L : Type 0} ⦃f : Float F⦄ (show : F → Text) (cfg : Config F)
    → (validate show {L = L} cfg ≡ ok tt) ↔ IsValid cfg
validate_iff show cfg = (
  λ h. Passes→IsValid cfg (validate→Passes cfg show h),
  λ v. Passes→validate cfg show (IsValid→Passes cfg v),
)

from_load-ok : {A L : Type 0} (r : Result L A) {a : A} → from_load r ≡ ok a → r ≡ ok a
from_load-ok (ok b) h = cc
from_load-ok (err e) h = cc

-- `load` returns a configuration exactly when the sources merge with the defaults, the merge
-- deserialises to this configuration, and it has the secrets (the key of the language model only
-- where the provider is not `ollama`), no synonym ratio that compares as at most 0.0 or above 1.0,
-- and no sum of the weights whose distance from 1.0 compares as above 0.01. (A NaN passes these
-- comparisons.)
pub load-ok_iff :
    {F L Raw : Type 0} ⦃f : Float F⦄ (show : F → Text) (build : List (Text × Value) → Result L Raw)
    (try_deserialize : Raw → Result L (Config F)) (cfg : Config F)
    → (load show build try_deserialize ≡ ok cfg)
      ↔ (((raw : Raw) × (build defaults ≡ ok raw) × (try_deserialize raw ≡ ok cfg)) × IsValid cfg)
unfolding load
load-ok_iff {L} {Raw} show build try_deserialize cfg = (
  λ h. elim (Result-cases (build defaults)) [
    | inr (e, b) ↦ absurd (ground arith)
    | inl (raw, b) ↦ elim (Result-cases (try_deserialize raw)) [
      | inr (e, t) ↦ absurd (ground arith)
      | inl (parsed, t) ↦ elim (Result-cases (validate show {L = L} parsed)) [
        | inr (e, v) ↦ absurd (ground arith)
        | inl (u, v) ↦
            let same : parsed ≡ cfg = ground arith in
            ((raw, b, rw (← same) t), rw (← same) ((validate_iff show parsed).0 v))
      ]
    ]
  ],
  λ ((raw, b, t), valid). rw (b, t, (validate_iff show cfg).1 valid) refl,
)

-- The check of the weights is no check of NaN: a configuration with a NaN weight is accepted if
-- the other conditions hold.
pub validate-nan_weight :
    {F L : Type 0} ⦃f : Float F⦄ (laws : IsAbsorbing F) (show : F → Text) (cfg : Config F)
    → IsNan cfg.scoring.weight_velocity
    → cfg.store.redis_url ≢ []
    → cfg.store.database_url ≢ []
    → cfg.llm.api_key ≢ []
    → bad_ratio cfg.defence.tier2_synonym_ratio ≡ false
    → bad_ratio cfg.defence.tier3_synonym_ratio ≡ false
    → validate show {L = L} cfg ≡ ok tt
unfolding weight_sum
validate-nan_weight laws show cfg n r d a t2 t3 =
    let s1 = laws.add_nan cfg.scoring.weight_velocity cfg.scoring.weight_divergence n in
    let s2 = laws.add_nan _ cfg.scoring.weight_entropy s1 in
    let s3 = laws.add_nan _ cfg.scoring.weight_anomaly s2 in
    let off = laws.abs_nan _ (laws.sub_nan_left (weight_sum cfg) one_f s3) in
    let v : Passes cfg = record {
      weights = unfold bad_weights in laws.lt_nan_right _ _ off;
      redis_url = ground (arith, is_empty_iff cfg.store.redis_url);
      database_url = ground (arith, is_empty_iff cfg.store.database_url);
      api_key = ground (arith, is_empty_iff cfg.llm.api_key);
      tier2 = t2;
      tier3 = t3;
    } in
    Passes→validate cfg show v
