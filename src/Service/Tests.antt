-- ===== src/Service/Tests.antt =====
-- Runs of `handle_infer` of engine/src/grpc/service.rs, and the theorems about it at these runs.
use vyse.Prelude.{
  ◌+◌, ◌*◌, ◌%◌, ◌^◌, ◌≡◌, ◌≢◌, refl, ◌⊎◌, true, false, Option, none, some, [], ◌∷◌, ◌++◌, Text,
  codes, text_eq, Result, ok, err, All, if◌then◌else◌,
}
use vyse.Float.Milli.{Milli, milli}
use vyse.Store.Session
use vyse.Store.Session.{Session, keep_last}
use vyse.Store.Logs.{QueryLog}
use vyse.Store.Redis as Sessions
use vyse.Store.Sample.{Server, redis, json, json_text, redis_laws, same_session}
use vyse.Service.{
  Inputs, Tier, clean, submit_tier3_event, save_session, insert_log, failed, panicked, can_trace,
}
use vyse.Service.Reply.{unwrap_or}
use vyse.Service.Infer.{handle_infer, load_or_create}
use vyse.Service.Infer.Tasks.{audit_of, IsAudit}
use vyse.Service.Infer.Profile.{Follows}
use vyse.Service.Infer.Outcome.{Saves, handle_infer-tasks, handle_infer-session, handle_infer-noise}
use vyse.Service.Infer.Guards.{handle_infer-failed}
use vyse.Service.Infer.Races.{
  run_tasks, handle_infer-stored, handle_infer-lost_update, handle_infer-sequential,
  load_or_create-deleted,
}
use vyse.Service.Sample.{env, hash, stored, ask, at}
use vyse.Service.Sample.Runs.{
  service, holding, probe, first, resp, second_server, first_lem, first_runs, server_of,
  response_of, Outcome,
}

handle_infer-tasks_example :
    (tier : Tier) × (s : Session Milli) × (q : QueryLog Milli) × (first.1
      ≡ audit_of tier
          (submit_tier3_event hash resp.hybrid_score resp.duration_mins (unwrap_or s.noise_seed []))
        ++ save_session s 3600 ∷ insert_log q ∷ [])
    × (resp.tier ≡ env.as_i32 tier)
    × (s.tier ≡ env.as_i32 tier)
    × (q.tier ≡ env.as_i32 tier)
    × (s.current_hybrid_score ≡ resp.hybrid_score)
    × (q.hybrid_score ≡ resp.hybrid_score)
    × (resp.request_id ≡ codes "r1")
    × (q.request_id ≡ codes "r1")
handle_infer-tasks_example =
    handle_infer-tasks env (holding false) (at 1000000000) probe resp first.1 first_lem

handle_infer-session_example :
    (found : Option (Session Milli)) × (s : Session Milli) × (Sessions.get redis json
        (λ m. m)
        (holding false)
        hash
      ≡ ok found)
    × Saves 3600 s first.1
    × Follows env (at 1000000000) probe (unwrap_or found (Session.new 1000000000 hash)) s
handle_infer-session_example =
    handle_infer-session env (holding false) (at 1000000000) probe resp first.1 first_lem

handle_infer-noise_example :
    (tier : Tier) × (s : Session Milli) × (clean_response : Text) × (resp.tier ≡ env.as_i32 tier)
    × Saves 3600 s first.1
    × (env.complete (codes "probe") ≡ ok clean_response)
    × (((tier ≡ clean) × (resp.response ≡ clean_response))
        ⊎ ((seed : Text) × (tier ≢ clean)
            × (env.apply clean_response tier seed ≡ ok resp.response)
            × (s.noise_seed ≡ some seed)))
handle_infer-noise_example =
    handle_infer-noise env (holding false) (at 1000000000) probe resp first.1 first_lem

-- A session that has been tracked for twelve minutes, and a second connection that is refused: the
-- audit event is spawned, and nothing else.
abbrev tracked : Server
tracked = record (holding false) {
  cell = λ k.
      if text_eq (codes "vyse:session:abcdef0123") k
      then some (json_text (record (stored false) { tracking_started_at = some 0 }))
      else none;
}

abbrev refused : Inputs
refused = record (at (720 * 10 ^ 9)) { second_pool_error = some (codes "timeout") }

abbrev refused_run : Outcome
refused_run = handle_infer env tracked refused probe

handle_infer-failed_example :
    (refused_run.1 ≡ [])
    ⊎ ((m : Text) × (refused.second_pool_error ≡ some m) × All IsAudit refused_run.1)
handle_infer-failed_example =
    handle_infer-failed env tracked refused probe (failed (codes "timeout")) refused_run.1
      (unfold service in refl)

refused_tests : refused_run.1 ≡ submit_tier3_event hash (milli.lit 95 2) (milli.lit 12 0) hash ∷ []
unfolding service
refused_tests = refl

abbrev second : Outcome
second = handle_infer env (holding false) (at 2000000000) (ask hash (codes "hello"))

abbrev later : Outcome
later = handle_infer env second_server (at 2000000000) (ask hash (codes "hello"))

abbrev raced_server : Server
raced_server = server_of (run_tasks env second_server second.1)

abbrev third_server : Server
third_server = server_of (run_tasks env second_server later.1)

abbrev session_of : Result Text (Option (Session Milli)) → Option (Session Milli)
session_of (ok s) = s
session_of (err e) = none

abbrev get_from : Server → Option (Session Milli)
get_from r = session_of (Sessions.get redis json (λ m. m) r hash)

handle_infer-stored_example :
    (s : Session Milli) × (get_from second_server ≡ some s)
    × Follows env (at 1000000000) probe (stored false) s
handle_infer-stored_example =
    handle_infer-stored env redis_laws same_session (holding false) (holding false) second_server
      (at 1000000000) probe resp first.1 (stored false) (get_from second_server)
      (unfold service in refl) refl first_lem first_runs (unfold service in refl)

handle_infer-lost_update_example :
    (one two : Session Milli) × (get_from second_server ≡ some one)
    × (get_from raced_server ≡ some two)
    × (one.request_count ≡ (7 + 1) % 2 ^ 64)
    × (two.request_count ≡ one.request_count)
    × (one.prompt_history ≡ keep_last 40 (codes "hi" ∷ codes "probe" ∷ []))
    × (two.prompt_history ≡ keep_last 40 (codes "hi" ∷ codes "hello" ∷ []))
handle_infer-lost_update_example =
    handle_infer-lost_update env redis_laws same_session (holding false) second_server raced_server
      (at 1000000000) (at 2000000000) probe (ask hash (codes "hello")) resp (response_of second.0)
      first.1 second.1 (stored false) (get_from second_server) (get_from raced_server) refl
      (unfold service in refl) refl first_lem (unfold service in refl) first_runs
      (unfold service in refl) (unfold service in refl) (unfold service in refl)

handle_infer-sequential_example :
    (s : Session Milli) × (get_from third_server ≡ some s)
    × (s.request_count ≡ (7 + 2) % 2 ^ 64)
    × (s.prompt_history
        ≡ keep_last 40 (keep_last 40 (codes "hi" ∷ codes "probe" ∷ []) ++ codes "hello" ∷ []))
handle_infer-sequential_example =
    handle_infer-sequential env redis_laws same_session (holding false) second_server third_server
      (at 1000000000) (at 2000000000) probe (ask hash (codes "hello")) resp (response_of later.0)
      first.1 later.1 (stored false) (get_from second_server) (get_from third_server) refl
      (unfold service in refl) refl first_lem first_runs (unfold service in refl)
      (unfold service in refl) (unfold service in refl) (unfold service in refl)

-- The banned session is deleted and comes back unbanned.
abbrev without : Server
without = record (holding true) {
  cell = λ k. if text_eq (codes "vyse:session:abcdef0123") k then none else (holding true).cell k;
}

load_or_create-deleted_example :
    load_or_create env without (at 9) probe
    ≡ (if can_trace hash then ok (Session.new 9 hash) else err panicked)
load_or_create-deleted_example =
    load_or_create-deleted env redis_laws (holding true) without (at 9) probe true none refl
      (unfold service in refl) (unfold service in refl)
