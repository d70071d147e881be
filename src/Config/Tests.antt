-- ===== src/Config/Tests.antt =====
-- Runs of engine/src/config.rs on thousandths, and the theorems at concrete configurations.
use vyse.Prelude.{◌≡◌, refl, ◌↔◌, true, List, [], Text, codes, join, text_eq, Result, ok, err}
use vyse.Float.Milli.{Milli, milli}
use vyse.Config.{Config, ScoringConfig, validate, validation}
use vyse.Config.Defaults.{Value, load, defaults}
use vyse.Config.Validation.{IsValid, load-ok_iff}

-- `default_cfg()` of the tests in scoring/mod.rs.
abbrev pub scoring : Milli → ScoringConfig Milli
scoring weight = record {
  weight_velocity = weight;
  weight_divergence = milli.lit 35 2;
  weight_entropy = milli.lit 15 2;
  weight_anomaly = milli.lit 25 2;
  tier2_score_threshold = milli.lit 55 2;
  tier3_score_threshold = milli.lit 90 2;
  tier2_min_duration_mins = milli.lit 2 0;
  tier3_min_duration_mins = milli.lit 10 0;
  max_rpm = milli.lit 30 0;
  rpm_window_mins = milli.lit 5 0;
  entropy_window_size = 20;
  isolation_forest_n_trees = 100;
  isolation_forest_sample_size = 256;
  max_timestamps_per_session = 50;
}

abbrev config : Milli → Text → Config Milli
config weight key = record {
  server = record {
    grpc_addr = codes "[::]:50051";
    max_message_size_bytes = 4194304;
    keepalive_secs = 30;
  };
  scoring = scoring weight;
  defence = record {
    tier2_synonym_ratio = milli.lit 45 2;
    tier3_synonym_ratio = milli.lit 70 2;
    numeric_perturb_pct = milli.lit 5 2;
    reorder_sentences = true;
  };
  store = record {
    redis_url = codes "redis://localhost:6379";
    session_ttl_secs = 86400;
    database_url = codes "postgres://localhost:5432/vyse";
    pg_pool_max = 10;
  };
  llm = record {
    provider = codes "groq";
    model = codes "llama-3.1-8b-instant";
    max_tokens = 512;
    temperature = milli.lit 7 1;
    api_key = key;
    ollama_base_url = codes "http://localhost:11434";
  };
  rekor = record {
    server_url = codes "https://rekor.sigstore.dev";
    enabled = true;
    timeout_secs = 10;
    signing_key_path = [];
  };
  models = record {
    model_dir = codes "./models";
    embedding_model = codes "all-MiniLM-L6-v2.onnx";
    intent_model = codes "nli-MiniLM2-L6-H768.onnx";
    ort_inter_op_threads = 2;
    ort_intra_op_threads = 2;
  };
  logging = record { level = codes "info"; format = codes "json" };
}

abbrev quarter : Milli
quarter = milli.lit 25 2

abbrev show : Milli → Text
show x = codes "(number)"

-- The shipped weights and ratios pass with a key, and the missing key is the one complaint.
validate_tests :
    (validate show {L = Text} (config quarter (codes "key")) ≡ ok tt)
    × (validate show {L = Text} (config quarter [])
        ≡ err (
            validation (
              codes
                "llm.api_key must be set via VYSE_ENGINE_LLM_API_KEY (not required for ollama)")))
    × (validate show {L = Text} (config (milli.lit 50 2) (codes "key"))
        ≡ err (validation (codes "scoring weights must sum to 1.0, got (number)")))
unfolding validate join text_eq
validate_tests = (refl, refl, refl)

abbrev build : List (Text × Value) → Result Text Text
build values = ok (codes "merged")

abbrev try_deserialize : Text → Result Text (Config Milli)
try_deserialize raw = ok (config quarter raw)

load-ok_iff_example : (load show build try_deserialize ≡ ok (config quarter (codes "merged"))) ↔ (
    ((raw : Text) × (build defaults ≡ ok raw)
      × (try_deserialize raw ≡ ok (config quarter (codes "merged"))))
    × IsValid (config quarter (codes "merged")))
load-ok_iff_example = load-ok_iff show build try_deserialize (config quarter (codes "merged"))

load_run : load show build try_deserialize ≡ ok (config quarter (codes "merged"))
unfolding load validate
load_run = refl
