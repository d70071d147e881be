-- ===== src/Service.antt =====
-- engine/src/grpc/service.rs: the messages, the state and the environment of the gRPC service.
--
-- The handler calls functions of modules that the repository does not hold (`error`, `ml`, `audit`,
-- `defence::apply`, `scoring::compute_scores` and others): they are the fields of `Env`. The times
-- that it reads, and the outcomes of its two requests for a pooled connection, are inputs.
pub mod Reply
mod Tracing
pub mod Infer
pub mod Admin
pub mod Engine
pub mod Sample
mod Tests
mod AdminTests
mod EngineTests
use vyse.Prelude.{
  ℕ, zero, suc, ◌+◌, ◌-◌, ◌*◌, ◌%◌, ◌^◌, min, Bool, true, false, ◌&&◌, Option, List, [], ◌∷◌, ◌++◌,
  Text, Result, ok, err, ltb, leb, if◌then◌else◌,
}
use vyse.Prelude.Int.{ℤ}
use vyse.Clock.{DateTime}
use vyse.Words.{can_slice, byte_len}
use vyse.Store.Session.{Session}
use vyse.Store.Logs.{QueryLog}
use vyse.Store.Redis.{Redis, Json}

pub record InferenceRequest : Type 0 where
  pub session_id_hash : Text
  pub prompt : Text
  pub request_id : Text

pub record ScoreBreakdown (F : Type 0) : Type 0 where
  pub v_score : F
  pub d_score : F
  pub e_score : F
  pub a_score : F
  pub intent_flagged : Bool
  pub intent_label : Text

pub record InferenceResponse (F : Type 0) : Type 0 where
  pub response : Text
  pub tier : ℤ
  pub hybrid_score : F
  pub duration_mins : F
  pub request_id : Text
  pub score_breakdown : ScoreBreakdown F

pub data Tier : Type 0 where
  clean suspicious malicious : Tier

-- `scoring::ScoringContext`
pub record ScoringContext (F : Type 0) : Type 0 where
  pub prompt : Text
  pub prompt_embedding : List F
  pub prev_embedding : Option (List F)
  pub timestamps : List DateTime
  pub prompt_history : List Text
  pub duration_mins : F

-- The scores as the handler reads them.
pub record RequestScores (F : Type 0) : Type 0 where
  pub v_score : F
  pub d_score : F
  pub e_score : F
  pub a_score : F
  pub intent_flagged : Bool
  pub intent_label : Option Text
  pub hybrid : F

-- The fields of `EngineConfig` that the handler reads itself.
pub record EngineConfig (F : Type 0) : Type 0 where
  pub max_timestamps : ℕ
  pub entropy_window : ℕ
  pub tracking_threshold : F
  pub velocity_window_mins : F
  pub intent_labels : List Text
  pub intent_threshold : F
  pub session_ttl_secs : ℕ

-- `cfg.scoring.entropy_window * 2`, a product of two `usize`
abbrev pub prompt_limit : {F : Type 0} → EngineConfig F → ℕ
prompt_limit cfg = (cfg.entropy_window * 2) % 2 ^ 64

-- What the service uses and the repository does not define. The rest of the configuration stands
-- inside these functions. `E` is `VyseError`, and `R` the state of Redis.
pub record Env (F E R : Type 0) : Type 0 where
  pub cfg : EngineConfig F
  pub redis : Redis E R
  pub json : Json F
  pub internal : Text → E
  pub session_banned : Text → E
  pub embed : Text → Result E (List F)
  pub classify_intent : Text → List Text → F → Result E (Bool × Option Text)
  pub compute_scores : ScoringContext F → RequestScores F
  pub classify_tier : RequestScores F → F → Tier
  pub as_i32 : Tier → ℤ
  pub calculate_rpm : List DateTime → F → F
  pub complete : Text → Result E Text
  pub derive_seed : Text → DateTime → Text
  pub apply : Text → Tier → Text → Result E Text
  pub hash_prompt : Text → Text

-- The readings of the clock in one request, in the order of the code, the error of each request
-- for a pooled connection, and the fresh UUID.
pub record Inputs : Type 0 where
  pub now : DateTime
  pub created : DateTime
  pub scored : DateTime
  pub classified : DateTime
  pub pool_error : Option Text
  pub second_pool_error : Option Text
  pub uuid : Text

-- What a handler spawns and does not wait for.
pub data Task (F : Type 0) : Type 0 where
  submit_tier3_event : Text → F → F → Text → Task F
  save_session : Session F → ℕ → Task F
  insert_log : QueryLog F → Task F

-- `tonic::Status`; `from_error` is `Status::from(e)`.
pub data Status (E : Type 0) : Type 0 where
  invalid_argument : Text → Status E
  not_found : Text → Status E
  internal_status : Text → Status E
  from_error : E → Status E

-- A handler fails with an error, or panics.
pub data Failure (E : Type 0) : Type 0 where
  failed : E → Failure E
  panicked : Failure E

abbrev pub lift {ℓ} : {E : Type 0} {A : Type ℓ} → Result E A → Result (Failure E) A
lift (ok a) = ok a
lift (err e) = err (failed e)

-- `&hash[..8.min(hash.len())]` in the fields of a span
unfoldable pub can_trace : Text → Bool
unfolding can_slice byte_len
can_trace hash = can_slice (min 8 (byte_len hash)) hash
