-- ===== src/Service/Infer.antt =====
-- engine/src/grpc/service.rs: `infer` and the pipeline `handle_infer`, step by step as the source
-- numbers them. A request reads the state of Redis once; all that it changes it leaves to spawned
-- tasks, which are returned beside its result.
pub mod Steps
pub mod Tasks
pub mod Guards
pub mod Panics
pub mod Profile
pub mod Outcome
pub mod Races
pub mod Liveness
use vyse.Prelude.{
  ℕ, ◌+◌, ◌*◌, ◌%◌, ◌^◌, Bool, true, false, ◌&&◌, Option, none, some, List, [], ◌∷◌, ◌++◌, Text,
  codes, is_empty, Result, ok, err, ◌>>=◌, if◌then◌else◌,
}
use vyse.Prelude.Int.{ℤ}
use vyse.Float.{Float}
use vyse.Clock.{DateTime}
use vyse.Store.Session
use vyse.Store.Session.{Session, trim, tracking_duration_mins}
use vyse.Store.Logs.{QueryLog}
use vyse.Store.Redis as Sessions
use vyse.Service.Reply.{Prepared, unwrap_or, finish}
use vyse.Words.{can_slice}
use vyse.Service.{
  prompt_limit, InferenceRequest, InferenceResponse, Tier, clean, suspicious, malicious,
  ScoringContext, RequestScores, Env, Inputs, Task, submit_tier3_event, save_session, insert_log,
  Status, invalid_argument, from_error, Failure, failed, panicked, lift, can_trace,
}

abbrev pub is_none {ℓ} : {A : Type ℓ} → Option A → Bool
is_none none = true
is_none (some a) = false

module _ {F E R : Type 0} ⦃f : Float F⦄ (env : Env F E R) where
  -- `pool.get().await.map_err(…)?`
  abbrev pub pooled : Option Text → Result E (Unit {0})
  pooled none = ok tt
  pooled (some e) = err (env.internal e)

  -- `store::session::get` with its span, which slices the hash
  unfoldable pub load_session : R → Text → Result (Failure E) (Option (Session F))
  load_session r hash =
      if can_trace hash
      then lift (Sessions.get env.redis env.json env.internal r hash)
      else err panicked

  -- step 1
  unfoldable pub load_or_create : R → Inputs → InferenceRequest → Result (Failure E) (Session F)
  load_or_create r t req = do
    _ ← lift (pooled t.pool_error)
    found ← load_session r req.session_id_hash
    let session = unwrap_or found (Session.new t.created req.session_id_hash)
    if session.is_banned then err (failed (env.session_banned req.session_id_hash)) else ok session

  -- step 2
  unfoldable pub record_request : Inputs → InferenceRequest → Session F → Session F
  record_request t req s =
      trim
        (record s {
          timestamps = s.timestamps ++ t.now ∷ [];
          prompt_history = s.prompt_history ++ req.prompt ∷ [];
          request_count = (s.request_count + 1) % 2 ^ 64;
          last_active_at = t.now;
        })
        env.cfg.max_timestamps (prompt_limit env.cfg)

  -- step 5
  unfoldable pub score :
      Inputs → InferenceRequest → Session F → List F → Bool → Option Text → RequestScores F
  score t req s embedding flagged label =
      record (env.compute_scores (record {
        prompt = req.prompt;
        prompt_embedding = embedding;
        prev_embedding = s.last_embedding;
        timestamps = s.timestamps;
        prompt_history = s.prompt_history;
        duration_mins = tracking_duration_mins t.scored s;
      })) { intent_flagged = flagged; intent_label = label }

  -- step 6; the log line slices the hash
  unfoldable pub start_tracking :
      Inputs → InferenceRequest → RequestScores F → Session F → Result (Failure E) (Session F)
  start_tracking t req scores s =
      if f.lt env.cfg.tracking_threshold scores.hybrid && is_none s.tracking_started_at
      then (if can_slice 8 req.session_id_hash
          then ok (record s { tracking_started_at = some t.now })
          else err panicked)
      else ok s

  -- step 7, with the duration that is read before it
  unfoldable pub classify : RequestScores F → F → List F → Session F → Session F
  classify scores duration_mins embedding s = record s {
    tier = env.as_i32 (env.classify_tier scores duration_mins);
    current_hybrid_score = scores.hybrid;
    dynamic_mean_rpm = env.calculate_rpm s.timestamps env.cfg.velocity_window_mins;
    last_embedding = some embedding;
  }

  -- `session.noise_seed.get_or_insert_with(…)`
  unfoldable pub seed_of : Inputs → InferenceRequest → Session F → Text
  seed_of t req s =
      unwrap_or s.noise_seed
        (env.derive_seed req.session_id_hash (unwrap_or s.tracking_started_at t.now))

  -- step 9, the arm of `Tier::Suspicious | Tier::Malicious`
  unfoldable pub perturb :
      Inputs → InferenceRequest → Tier → Text → Session F → Result E (Text × Bool × Session F)
  perturb t req tier clean_response s = do
    perturbed ← env.apply clean_response tier (seed_of t req s)
    ok (perturbed, true, record s { noise_seed = some (seed_of t req s) })

  -- step 9
  unfoldable pub defend :
      Inputs → InferenceRequest → Tier → Text → Session F → Result E (Text × Bool × Session F)
  defend t req clean clean_response s = ok (clean_response, false, s)
  defend t req suspicious clean_response s = perturb t req suspicious clean_response s
  defend t req malicious clean_response s = perturb t req malicious clean_response s

  -- steps 8 and 9, for a session that step 7 has brought up to date
  unfoldable pub answer :
      Inputs → InferenceRequest → RequestScores F → F → Session F → Result (Failure E) (Prepared F)
  answer t req scores duration_mins s = do
    let tier = env.classify_tier scores duration_mins
    clean_response ← lift (env.complete req.prompt)
    served ← lift (defend t req tier clean_response s)
    ok (record {
      session = served.2;
      scores = scores;
      duration_mins = duration_mins;
      tier = tier;
      served_response = served.0;
      noise_applied = served.1;
    })

  -- steps 6 to 9
  unfoldable pub judge :
      Inputs
      → InferenceRequest
      → RequestScores F
      → List F
      → Session F
      → Result (Failure E) (Prepared F)
  judge t req scores embedding s = do
    tracked ← start_tracking t req scores s
    let duration_mins = tracking_duration_mins t.classified tracked
    answer t req scores duration_mins (classify scores duration_mins embedding tracked)

  -- steps 3 to 9
  unfoldable pub examine : Inputs → InferenceRequest → Session F → Result (Failure E) (Prepared F)
  examine t req s = do
    embedding ← lift (env.embed req.prompt)
    intent ← lift (env.classify_intent req.prompt env.cfg.intent_labels env.cfg.intent_threshold)
    judge t req (score t req s embedding intent.0 intent.1) embedding s

  -- steps 1 to 9
  unfoldable pub prepare : R → Inputs → InferenceRequest → Result (Failure E) (Prepared F)
  prepare r t req = do loaded ← load_or_create r t req; examine t req (record_request t req loaded)

  abbrev pub finish? :
      Inputs
      → InferenceRequest
      → Result (Failure E) (Prepared F)
      → Result (Failure E) (InferenceResponse F) × List (Task F)
  finish? t req (ok p) = finish env t req p
  finish? t req (err e) = (err e, [])

  unfoldable pub handle_infer :
      R → Inputs → InferenceRequest → Result (Failure E) (InferenceResponse F) × List (Task F)
  handle_infer r t req = finish? t req (prepare r t req)

  abbrev pub as_status {ℓ} : {A : Type ℓ} → Result (Failure E) A → Result (Failure (Status E)) A
  as_status (ok a) = ok a
  as_status (err (failed e)) = err (failed (from_error e))
  as_status (err panicked) = err panicked

  -- The span of the handler is opened first, then the inputs are validated.
  unfoldable pub infer :
      R
      → Inputs
      → InferenceRequest
      → Result (Failure (Status E)) (InferenceResponse F) × List (Task F)
  infer r t req =
      let (result, tasks) = handle_infer r t req in
      if can_trace req.session_id_hash
      then (if is_empty req.session_id_hash
          then (err (failed (invalid_argument (codes "session_id_hash is required"))), [])
          else if is_empty req.prompt
          then (err (failed (invalid_argument (codes "prompt is required"))), [])
          else (as_status result, tasks))
      else (err panicked, [])
