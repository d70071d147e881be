-- ===== src/Service/Reply.antt =====
-- engine/src/grpc/service.rs, `handle_infer`: steps 10 and 11, the audit event, the log row, the save
-- of the session and the response.
use vyse.Prelude.{Bool, Option, none, some, List, [], ◌∷◌, ◌++◌, Text, Result, ok, err}
use vyse.Store.Session.{Session}
use vyse.Store.Logs.{QueryLog}
use vyse.Service.{
  InferenceRequest, InferenceResponse, Tier, malicious, RequestScores, Env, Inputs, Task,
  submit_tier3_event, save_session, insert_log, Failure, failed,
}

-- `option.unwrap_or(default)`
abbrev pub unwrap_or {ℓ} : {A : Type ℓ} → Option A → A → A
unwrap_or none a = a
unwrap_or (some b) a = b

-- What the steps up to the defence have computed.
pub record Prepared (F : Type 0) : Type 0 where
  pub session : Session F
  pub scores : RequestScores F
  pub duration_mins : F
  pub tier : Tier
  pub served_response : Text
  pub noise_applied : Bool

module _ {F E R : Type 0} (env : Env F E R) where
  -- step 10
  unfoldable pub audit : InferenceRequest → Prepared F → List (Task F)
  audit req p = elim p.tier [
    | malicious ↦
        submit_tier3_event req.session_id_hash p.scores.hybrid p.duration_mins
          (unwrap_or p.session.noise_seed [])
        ∷ []
    | _ ↦ []
  ]

  unfoldable pub log_of : Inputs → InferenceRequest → Prepared F → QueryLog F
  log_of t req p = record {
    id = t.uuid;
    session_id_hash = req.session_id_hash;
    timestamp = t.now;
    prompt_hash = env.hash_prompt req.prompt;
    tier = env.as_i32 p.tier;
    hybrid_score = p.scores.hybrid;
    v_score = p.scores.v_score;
    d_score = p.scores.d_score;
    e_score = p.scores.e_score;
    a_score = p.scores.a_score;
    intent_flagged = p.scores.intent_flagged;
    intent_label = p.scores.intent_label;
    noise_applied = p.noise_applied;
    noise_steps = none;
    request_id = req.request_id;
  }

  unfoldable pub respond : InferenceRequest → Prepared F → InferenceResponse F
  respond req p = record {
    response = p.served_response;
    tier = env.as_i32 p.tier;
    hybrid_score = p.scores.hybrid;
    duration_mins = p.duration_mins;
    request_id = req.request_id;
    score_breakdown = record {
      v_score = p.scores.v_score;
      d_score = p.scores.d_score;
      e_score = p.scores.e_score;
      a_score = p.scores.a_score;
      intent_flagged = p.scores.intent_flagged;
      intent_label = unwrap_or p.scores.intent_label [];
    };
  }

  -- steps 10 and 11: the second connection may be refused after the audit event was spawned
  unfoldable pub finish :
      Inputs
      → InferenceRequest
      → Prepared F
      → Result (Failure E) (InferenceResponse F) × List (Task F)
  finish t req p = elim t.second_pool_error [
    | some e ↦ (err (failed (env.internal e)), audit req p)
    | none ↦ (
      ok (respond req p),
      audit req p
          ++ save_session p.session env.cfg.session_ttl_secs ∷ insert_log (log_of t req p) ∷ [],
    )
  ]
