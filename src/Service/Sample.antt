-- ===== src/Service/Sample.antt =====
-- A concrete environment of the service: Redis and the codec of Store/Sample, the classification of
-- Scoring/Tier, and simple functions for the rest. A prompt "probe" scores 0.95, any other 0.10.
pub mod Runs
use vyse.Prelude.{
  ℕ, suc, Bool, true, false, Option, none, some, List, [], ◌∷◌, ◌++◌, Text, codes, text_eq, Result,
  ok, if◌then◌else◌,
}
use vyse.Prelude.Int.{ℤ, pos}
use vyse.Float.Milli.{Milli, milli}
use vyse.Config.Tests.{scoring}
use vyse.Scoring.Tier.{classify_tier}
use vyse.Store.Session.{Session}
use vyse.Store.Sample.{Server, redis, json}
use vyse.Service.{
  InferenceRequest, Tier, clean, suspicious, malicious, RequestScores, ScoringContext, EngineConfig,
  Env, Inputs,
}

abbrev tier_of : ℕ → Tier
tier_of (suc (suc (suc n))) = malicious
tier_of (suc (suc n)) = suspicious
tier_of n = clean

abbrev code_of : Tier → ℤ
code_of clean = pos 1
code_of suspicious = pos 2
code_of malicious = pos 3

abbrev hybrid_of : Text → Milli
hybrid_of prompt = if text_eq prompt (codes "probe") then milli.lit 95 2 else milli.lit 10 2

abbrev pub env : Env Milli Text Server
env = record {
  cfg = record {
    max_timestamps = 50;
    entropy_window = 20;
    tracking_threshold = milli.lit 30 2;
    velocity_window_mins = milli.lit 5 0;
    intent_labels = codes "extraction" ∷ [];
    intent_threshold = milli.lit 80 2;
    session_ttl_secs = 3600;
  };
  redis = redis;
  json = json;
  internal = λ m. m;
  session_banned = λ hash. codes "banned: " ++ hash;
  embed = λ prompt. ok (milli.lit 1 0 ∷ []);
  classify_intent = λ prompt labels threshold. ok (false, none);
  compute_scores = λ ctx. record {
    v_score = milli.lit 0 0;
    d_score = milli.lit 0 0;
    e_score = milli.lit 0 0;
    a_score = milli.lit 0 0;
    intent_flagged = false;
    intent_label = none;
    hybrid = hybrid_of ctx.prompt;
  };
  classify_tier = λ scores duration.
      tier_of
        (classify_tier scores.hybrid duration scores.intent_flagged (scoring (milli.lit 25 2)));
  as_i32 = code_of;
  calculate_rpm = λ times window. milli.lit 0 0;
  complete = λ prompt. ok (codes "the model says hello");
  derive_seed = λ hash start. hash;
  apply = λ response tier seed. ok (codes "noisy");
  hash_prompt = λ prompt. prompt;
}

abbrev pub hash : Text
hash = codes "abcdef0123"

abbrev pub stored : Bool → Session Milli
stored banned = record {
  session_id_hash = hash;
  tier = pos 1;
  first_seen_at = 0;
  last_active_at = 0;
  tracking_started_at = none;
  request_count = 7;
  dynamic_mean_rpm = milli.lit 0 0;
  current_hybrid_score = milli.lit 0 0;
  timestamps = [];
  prompt_history = codes "hi" ∷ [];
  last_embedding = none;
  is_banned = banned;
  noise_seed = none;
}

abbrev pub ask : Text → Text → InferenceRequest
ask hash prompt = record { session_id_hash = hash; prompt = prompt; request_id = codes "r1" }

abbrev pub at : ℕ → Inputs
at now = record {
  now = now;
  created = now;
  scored = now;
  classified = now;
  pool_error = none;
  second_pool_error = none;
  uuid = codes "u1";
}
