-- ===== src/Config/Defaults.antt =====
-- engine/src/config.rs, `Config::load`: the defaults that it gives to the `config` crate, and the
-- order of its steps. The crate (merging, the file, the environment) and `serde` are parameters.
use vyse.Prelude.{ℕ, ◌*◌, Bool, true, List, [], ◌∷◌, Text, codes, Result, ok, err, ◌>>=◌}
use vyse.Float.{Float}
use vyse.Config.{Config, ConfigError, load_error, validate}

-- `float n k` is the literal with digits `n` and `k` places behind the point.
pub data Value : Type 0 where
  float : ℕ → ℕ → Value
  int : ℕ → Value
  boolean : Bool → Value
  text : Text → Value

unfoldable pub defaults : List (Text × Value)
defaults =
    (codes "server.grpc_addr", text (codes "[::]:50051"))
    ∷ (codes "server.max_message_size_bytes", int (4 * 1024 * 1024))
    ∷ (codes "server.keepalive_secs", int 30)
    ∷ (codes "scoring.weight_velocity", float 25 2)
    ∷ (codes "scoring.weight_divergence", float 35 2)
    ∷ (codes "scoring.weight_entropy", float 15 2)
    ∷ (codes "scoring.weight_anomaly", float 25 2)
    ∷ (codes "scoring.tier2_score_threshold", float 55 2)
    ∷ (codes "scoring.tier3_score_threshold", float 90 2)
    ∷ (codes "scoring.tier2_min_duration_mins", float 20 1)
    ∷ (codes "scoring.tier3_min_duration_mins", float 100 1)
    ∷ (codes "scoring.max_rpm", float 300 1)
    ∷ (codes "scoring.rpm_window_mins", float 50 1)
    ∷ (codes "scoring.entropy_window_size", int 20)
    ∷ (codes "scoring.isolation_forest_n_trees", int 100)
    ∷ (codes "scoring.isolation_forest_sample_size", int 256)
    ∷ (codes "scoring.max_timestamps_per_session", int 50)
    ∷ (codes "defence.tier2_synonym_ratio", float 45 2)
    ∷ (codes "defence.tier3_synonym_ratio", float 70 2)
    ∷ (codes "defence.numeric_perturb_pct", float 5 2)
    ∷ (codes "defence.reorder_sentences", boolean true)
    ∷ (codes "store.session_ttl_secs", int 86400)
    ∷ (codes "store.pg_pool_max", int 10)
    ∷ (codes "llm.provider", text (codes "groq"))
    ∷ (codes "llm.model", text (codes "llama-3.1-8b-instant"))
    ∷ (codes "llm.max_tokens", int 512)
    ∷ (codes "llm.temperature", float 7 1)
    ∷ (codes "llm.ollama_base_url", text (codes "http://localhost:11434"))
    ∷ (codes "rekor.server_url", text (codes "https://rekor.sigstore.dev"))
    ∷ (codes "rekor.enabled", boolean true)
    ∷ (codes "rekor.timeout_secs", int 10)
    ∷ (codes "rekor.signing_key_path", text (codes ""))
    ∷ (codes "models.model_dir", text (codes "./models"))
    ∷ (codes "models.embedding_model", text (codes "all-MiniLM-L6-v2.onnx"))
    ∷ (codes "models.intent_model", text (codes "nli-MiniLM2-L6-H768.onnx"))
    ∷ (codes "models.ort_inter_op_threads", int 2)
    ∷ (codes "models.ort_intra_op_threads", int 2)
    ∷ (codes "logging.level", text (codes "info"))
    ∷ (codes "logging.format", text (codes "json"))
    ∷ []

-- `map_err` of the `#[from]` conversion.
abbrev pub from_load : {A L : Type 0} → Result L A → Result (ConfigError L) A
from_load (ok a) = ok a
from_load (err e) = err (load_error e)

-- `build` takes the defaults, adds the file and the environment, and merges; `try_deserialize`
-- reads the typed configuration.
module _ {F L Raw : Type 0} ⦃f : Float F⦄ (show : F → Text)
    (build : List (Text × Value) → Result L Raw) (try_deserialize : Raw → Result L (Config F)) where
  unfoldable pub load : Result (ConfigError L) (Config F)
  load = do
    cfg ← from_load (build defaults)
    parsed ← from_load (try_deserialize cfg)
    _ ← validate show {L = L} parsed
    ok parsed
