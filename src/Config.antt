-- ===== src/Config.antt =====
-- engine/src/config.rs: the configuration of the engine and its checks at startup. Numbers of the
-- `f32` fields are of a parameter type. The `config` crate that merges the defaults, the file and
-- the environment, and `serde`, are parameters of `load`.
pub mod Defaults
pub mod Validation
pub mod Tests
use vyse.Prelude.{
  ℕ, Bool, true, false, not, ◌&&◌, ◌||◌, List, [], ◌∷◌, ◌++◌, Text, codes, is_empty, text_eq, join,
  Result, ok, err, ◌>>=◌, if◌then◌else◌,
}
use vyse.Float.{Float, zero_f, one_f}

pub record ServerConfig : Type 0 where
  pub grpc_addr : Text
  pub max_message_size_bytes : ℕ
  pub keepalive_secs : ℕ

pub record ScoringConfig (F : Type 0) : Type 0 where
  pub weight_velocity : F
  pub weight_divergence : F
  pub weight_entropy : F
  pub weight_anomaly : F
  pub tier2_score_threshold : F
  pub tier3_score_threshold : F
  pub tier2_min_duration_mins : F
  pub tier3_min_duration_mins : F
  pub max_rpm : F
  pub rpm_window_mins : F
  pub entropy_window_size : ℕ
  pub isolation_forest_n_trees : ℕ
  pub isolation_forest_sample_size : ℕ
  pub max_timestamps_per_session : ℕ

pub record DefenceConfig (F : Type 0) : Type 0 where
  pub tier2_synonym_ratio : F
  pub tier3_synonym_ratio : F
  pub numeric_perturb_pct : F
  pub reorder_sentences : Bool

pub record StoreConfig : Type 0 where
  pub redis_url : Text
  pub session_ttl_secs : ℕ
  pub database_url : Text
  pub pg_pool_max : ℕ

pub record LlmConfig (F : Type 0) : Type 0 where
  pub provider : Text
  pub model : Text
  pub max_tokens : ℕ
  pub temperature : F
  pub api_key : Text
  pub ollama_base_url : Text

pub record RekorConfig : Type 0 where
  pub server_url : Text
  pub enabled : Bool
  pub timeout_secs : ℕ
  pub signing_key_path : Text

pub record ModelsConfig : Type 0 where
  pub model_dir : Text
  pub embedding_model : Text
  pub intent_model : Text
  pub ort_inter_op_threads : ℕ
  pub ort_intra_op_threads : ℕ

pub record LoggingConfig : Type 0 where
  pub level : Text
  pub format : Text

pub record Config (F : Type 0) : Type 0 where
  pub server : ServerConfig
  pub scoring : ScoringConfig F
  pub defence : DefenceConfig F
  pub store : StoreConfig
  pub llm : LlmConfig F
  pub rekor : RekorConfig
  pub models : ModelsConfig
  pub logging : LoggingConfig

-- `L` is the error of the `config` crate.
pub data ConfigError (L : Type 0) : Type 0 where
  load_error : L → ConfigError L
  validation : Text → ConfigError L

-- `if bad { errors.push(message) }`
abbrev push_if : Bool → Text → List Text → List Text
push_if bad message errors = if bad then errors ++ message ∷ [] else errors

module _ {F : Type 0} ⦃f : Float F⦄ where
  pub weight_sum : Config F → F
  weight_sum cfg =
      f.add
        (f.add (f.add cfg.scoring.weight_velocity cfg.scoring.weight_divergence)
          cfg.scoring.weight_entropy)
        cfg.scoring.weight_anomaly

  pub bad_weights : Config F → Bool
  unfolding weight_sum
  bad_weights cfg = f.lt (f.lit 1 2) (f.abs (f.sub (weight_sum cfg) one_f))

  pub bad_ratio : F → Bool
  bad_ratio ratio = f.le ratio zero_f || f.lt one_f ratio

-- `show` prints a number with four places (`{:.4}`).
module _ {F : Type 0} ⦃f : Float F⦄ (show : F → Text) where
  pub validation_errors : Config F → List Text
  unfolding weight_sum bad_weights bad_ratio
  validation_errors cfg =
      push_if (bad_ratio cfg.defence.tier3_synonym_ratio)
        (codes "defence.tier3_synonym_ratio must be in (0.0, 1.0]")
        (push_if (bad_ratio cfg.defence.tier2_synonym_ratio)
          (codes "defence.tier2_synonym_ratio must be in (0.0, 1.0]")
          (push_if (is_empty cfg.llm.api_key && not (text_eq cfg.llm.provider (codes "ollama")))
            (codes "llm.api_key must be set via VYSE_ENGINE_LLM_API_KEY (not required for ollama)")
            (push_if (is_empty cfg.store.database_url)
              (codes "store.database_url must be set via VYSE_ENGINE_STORE_DATABASE_URL")
              (push_if (is_empty cfg.store.redis_url)
                (codes "store.redis_url must be set via VYSE_ENGINE_STORE_REDIS_URL")
                (push_if (bad_weights cfg)
                  (codes "scoring weights must sum to 1.0, got " ++ show (weight_sum cfg)) [])))))

  pub validate : {L : Type 0} → Config F → Result (ConfigError L) (Unit {0})
  unfolding validation_errors
  validate cfg =
      let errors = validation_errors cfg in
      if is_empty errors then ok tt else err (validation (join (codes "\n  - ") errors))
