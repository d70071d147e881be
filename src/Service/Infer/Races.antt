-- ===== src/Service/Infer/Races.antt =====
-- engine/src/grpc/service.rs: the session that a request stores was computed from the session that
-- it loaded. The save runs in a spawned task, so other requests may load and store in between.
use vyse.Prelude.{
  ℕ, ◌+◌, ◌%◌, ◌^◌, ◌≡◌, refl, ◌∙◌, ap, sym, Bool, Option, none, some, List, [], ◌∷◌, ◌++◌, Text,
  Result, ok, err, ◌>>=◌, arith, All, if◌then◌else◌,
}
use vyse.Float.{Float}
use vyse.Store.Session
use vyse.Store.Session.{Session, keep_last}
use vyse.Store.Redis as Sessions
use vyse.Store.Redis.{RedisLaws}
use vyse.Store.Redis.RoundTrip.{get-set, get-delete}
use vyse.Service.{
  prompt_limit, InferenceRequest, InferenceResponse, Env, Inputs, Task, submit_tier3_event,
  save_session, insert_log, panicked, can_trace,
}
use vyse.Service.Infer.{load_session, load_or_create, handle_infer}
use vyse.Service.Infer.Tasks.{IsAudit}
use vyse.Service.Infer.Profile.{Follows}
use vyse.Service.Infer.Outcome.{Saves, handle_infer-session}

module _ {F E R : Type 0} (env : Env F E R) where
  -- What a spawned task does to Redis. The source drops the error; here it ends the run.
  unfoldable pub run_task : R → Task F → Result E R
  run_task r (submit_tier3_event _ _ _ _) = ok r
  run_task r (save_session s ttl) = Sessions.set env.redis env.json env.internal r s ttl
  run_task r (insert_log _) = ok r

  unfoldable pub run_tasks : R → List (Task F) → Result E R
  run_tasks r [] = ok r
  run_tasks r (task ∷ tasks) = run_task r task >>= λ r'. run_tasks r' tasks

  run_tasks-Saves :
      (r : R) (events tasks : List (Task F))
      → All IsAudit events
      → run_tasks r (events ++ tasks) ≡ run_tasks r tasks
  unfolding run_tasks run_task
  run_tasks-Saves r [] tasks h = refl
  run_tasks-Saves r (submit_tier3_event a b c d ∷ events) tasks (_, h) =
      run_tasks-Saves r events tasks h
  run_tasks-Saves r (save_session a b ∷ events) tasks (bad, h) = absurd bad
  run_tasks-Saves r (insert_log a ∷ events) tasks (bad, h) = absurd bad

  bind-ok : (m : Result E R) → (m >>= λ r. ok r) ≡ m
  bind-ok (ok a) = refl
  bind-ok (err e) = refl

  pub Saves-run :
      (r r' : R) (ttl : ℕ) (s : Session F) (tasks : List (Task F))
      → Saves ttl s tasks
      → run_tasks r tasks ≡ ok r'
      → Sessions.set env.redis env.json env.internal r s ttl ≡ ok r'
  Saves-run r r' ttl s tasks (events, q, h, e) done =
      let split = run_tasks-Saves r events (save_session s ttl ∷ insert_log q ∷ []) h in
      let plain : run_tasks r (save_session s ttl ∷ insert_log q ∷ []) ≡ ok r' =
        sym split ∙ rw e at done in
      sym (bind-ok (Sessions.set env.redis env.json env.internal r s ttl))
      ∙ unfold run_tasks run_task in plain

module _ {F E R : Type 0} ⦃f : Float F⦄ (env : Env F E R) (laws : RedisLaws E R env.redis) where
  -- Deleting a session forgets its ban: the next request, whatever was stored before, gets a new
  -- session that is not banned, if its connection and its load succeed. (A hash that the span of the
  -- load cannot cut makes it panic.)
  pub load_or_create-deleted :
      (r r' : R) (t : Inputs) (req : InferenceRequest) (existed : Bool) (found : Option (Session F))
      → t.pool_error ≡ none
      → Sessions.delete env.redis r req.session_id_hash ≡ ok (existed, r')
      → Sessions.get env.redis env.json env.internal r' req.session_id_hash ≡ ok found
      → load_or_create env r' t req ≡ (
          if can_trace req.session_id_hash
          then ok (Session.new t.created req.session_id_hash)
          else err panicked)
  unfolding load_or_create load_session Session.new
  load_or_create-deleted r r' t req existed found pool deleted loaded =
      let gone : found ≡ none =
        get-delete env.redis laws env.json env.internal r r' req.session_id_hash existed found
          deleted loaded in
      ground arith

module _ {F E R : Type 0} ⦃f : Float F⦄ (env : Env F E R) (laws : RedisLaws E R env.redis)
    (back : (s s' : Session F) (raw : Text)
      → env.json.to_string s ≡ ok raw
      → env.json.from_str raw ≡ ok s'
      → s' ≡ s) where
  -- What is stored once the tasks of a request have run is what the request made of the session as
  -- it loaded it. The state `r'` in which the save ran has no part in it. (What `serde_json` reads
  -- from the text that it wrote for a session, where it reads it at all, is that session; the stored
  -- session carries the hash that it is stored under; the loads and the save succeed.)
  pub handle_infer-stored :
      (r r' r'' : R) (t : Inputs) (req : InferenceRequest) (resp : InferenceResponse F)
      (tasks : List (Task F)) (old : Session F) (after : Option (Session F))
      → Sessions.get env.redis env.json env.internal r req.session_id_hash ≡ ok (some old)
      → old.session_id_hash ≡ req.session_id_hash
      → handle_infer env r t req ≡ (ok resp, tasks)
      → run_tasks env r' tasks ≡ ok r''
      → Sessions.get env.redis env.json env.internal r'' req.session_id_hash ≡ ok after
      → (s : Session F) × (after ≡ some s) × Follows env t req old s
  handle_infer-stored r r' r'' t req resp tasks old after loaded keyed answered ran reloaded =
      let (found, s, read, saves, follows) = handle_infer-session env r t req resp tasks answered in
      let same : found ≡ some old = ground arith in
      let f' : Follows env t req old s = rw same at follows in
      let stored = Saves-run env r' r'' env.cfg.session_ttl_secs s tasks saves ran in
      let hash : s.session_id_hash ≡ req.session_id_hash = f'.hash ∙ keyed in
      (
        s,
        get-set env.redis laws env.json env.internal r' r'' s env.cfg.session_ttl_secs after
            (back s) stored (rw hash reloaded),
        f',
      )

  -- Two requests of one session that load the same state, whose saves then run one after the other.
  -- Between the saves, the stored session counts the first request and its prompt history ends with
  -- the first prompt. After the second save the count is the same, and the history is that of the
  -- state which both loaded with the second prompt only: the stored update of the first request is
  -- lost. (What `serde_json` reads of a session that it wrote is that session, the stored session
  -- carries its hash, and the loads and the saves succeed.)
  pub handle_infer-lost_update :
      (r r' r'' : R) (t t' : Inputs) (req req' : InferenceRequest)
      (resp resp' : InferenceResponse F) (tasks tasks' : List (Task F)) (old : Session F)
      (between after : Option (Session F))
      → req'.session_id_hash ≡ req.session_id_hash
      → Sessions.get env.redis env.json env.internal r req.session_id_hash ≡ ok (some old)
      → old.session_id_hash ≡ req.session_id_hash
      → handle_infer env r t req ≡ (ok resp, tasks)
      → handle_infer env r t' req' ≡ (ok resp', tasks')
      → run_tasks env r tasks ≡ ok r'
      → Sessions.get env.redis env.json env.internal r' req.session_id_hash ≡ ok between
      → run_tasks env r' tasks' ≡ ok r''
      → Sessions.get env.redis env.json env.internal r'' req.session_id_hash ≡ ok after
      → (first second : Session F) × (between ≡ some first)
        × (after ≡ some second)
        × (first.request_count ≡ (old.request_count + 1) % 2 ^ 64)
        × (second.request_count ≡ first.request_count)
        × (first.prompt_history
            ≡ keep_last (prompt_limit env.cfg) (old.prompt_history ++ req.prompt ∷ []))
        × (second.prompt_history
            ≡ keep_last (prompt_limit env.cfg) (old.prompt_history ++ req'.prompt ∷ []))
  handle_infer-lost_update r r' r'' t t' req req' resp resp' tasks tasks' old between after same
        loaded keyed first second ran mid ran' reloaded =
      let (s, e, one) =
        handle_infer-stored r r r' t req resp tasks old between loaded keyed first ran mid in
      let (s', e', two) =
        handle_infer-stored r r' r'' t' req' resp' tasks' old after (rw same loaded)
          (keyed ∙ sym same) second ran' (rw same reloaded) in
      (s, s', e, e', one.count, two.count ∙ sym one.count, one.prompts, two.prompts)

  -- Two requests of one session of which the second loads after the save of the first: both are
  -- counted, and both prompts are in the history, as far as its limit lets them. (What `serde_json`
  -- reads of a session that it wrote is that session, the stored session carries its hash, and the
  -- loads and the saves succeed.)
  pub handle_infer-sequential :
      (r r' r'' : R) (t t' : Inputs) (req req' : InferenceRequest)
      (resp resp' : InferenceResponse F) (tasks tasks' : List (Task F)) (old : Session F)
      (between after : Option (Session F))
      → req'.session_id_hash ≡ req.session_id_hash
      → Sessions.get env.redis env.json env.internal r req.session_id_hash ≡ ok (some old)
      → old.session_id_hash ≡ req.session_id_hash
      → handle_infer env r t req ≡ (ok resp, tasks)
      → run_tasks env r tasks ≡ ok r'
      → Sessions.get env.redis env.json env.internal r' req.session_id_hash ≡ ok between
      → handle_infer env r' t' req' ≡ (ok resp', tasks')
      → run_tasks env r' tasks' ≡ ok r''
      → Sessions.get env.redis env.json env.internal r'' req.session_id_hash ≡ ok after
      → (s : Session F) × (after ≡ some s)
        × (s.request_count ≡ (old.request_count + 2) % 2 ^ 64)
        × (s.prompt_history
            ≡ keep_last (prompt_limit env.cfg) (
                keep_last (prompt_limit env.cfg) (old.prompt_history ++ req.prompt ∷ [])
                ++ req'.prompt ∷ []))
  handle_infer-sequential r r' r'' t t' req req' resp resp' tasks tasks' old between after same
        loaded keyed first ran mid second ran' reloaded =
      let (s, e, one) =
        handle_infer-stored r r r' t req resp tasks old between loaded keyed first ran mid in
      let (s', e', two) =
        handle_infer-stored r' r' r'' t' req' resp' tasks' s after (rw same (mid ∙ ap ok e))
          (one.hash ∙ keyed ∙ sym same) second ran' (rw same reloaded) in
      (
        s',
        e',
        omega (arith, one.count, two.count),
        two.prompts
            ∙ ap (λ h. keep_last (prompt_limit env.cfg) (h ++ req'.prompt ∷ [])) one.prompts,
      )
