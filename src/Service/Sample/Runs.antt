-- ===== src/Service/Sample/Runs.antt =====
-- A request in the environment of Service/Sample, with the state that it finds and leaves.
use vyse.Prelude.{
  ◌≡◌, refl, Bool, true, false, none, some, List, [], ◌∷◌, Text, codes, text_eq, Result, ok, err,
}
use vyse.Prelude.Int.{pos}
use vyse.Float.Milli.{Milli, milli}
use vyse.Store.Session
use vyse.Store.Session.{Session, keep_last}
use vyse.Store.Redis as Sessions
use vyse.Store.Sample.{Server, redis, json, json_text}
use vyse.Words.{can_slice}
use vyse.Service.{InferenceRequest, InferenceResponse, Task, Failure, can_trace}
use vyse.Service.Reply.{finish, audit, log_of, respond}
use vyse.Service.Infer.{
  handle_infer, infer, load_session, load_or_create, defend, examine, judge, answer, prepare,
  start_tracking, record_request, score, classify, perturb, seed_of,
}
use vyse.Service.Infer.Races.{run_task, run_tasks}
use vyse.Service.Sample.{env, hash, stored, ask, at}
use vyse.Scoring.Tier.{classify_tier}

unfoldable pub service : Unit {0}
unfolding handle_infer infer load_session load_or_create defend examine judge answer prepare finish
    start_tracking record_request score classify audit log_of respond perturb seed_of Session.trim
    Session.new Session.tracking_duration_mins keep_last Sessions.get Sessions.set Sessions.delete
    run_task run_tasks can_slice can_trace text_eq classify_tier
service = tt

-- A server that holds one session, banned or not.
abbrev pub holding : Bool → Server
holding banned = record {
  cell = λ k. elim (text_eq (codes "vyse:session:abcdef0123") k) [
    | true ↦ some (json_text (stored banned))
    | false ↦ none
  ];
  names = codes "vyse:session:abcdef0123" ∷ [];
}

abbrev pub Outcome : Type 0
Outcome = Result (Failure Text) (InferenceResponse Milli) × List (Task Milli)

abbrev pub probe : InferenceRequest
probe = ask hash (codes "probe")

abbrev pub first : Outcome
first = handle_infer env (holding false) (at 1000000000) probe

abbrev pub no_response : InferenceResponse Milli
no_response = record {
  response = [];
  tier = pos 0;
  hybrid_score = milli.lit 0 0;
  duration_mins = milli.lit 0 0;
  request_id = [];
  score_breakdown = record {
    v_score = milli.lit 0 0;
    d_score = milli.lit 0 0;
    e_score = milli.lit 0 0;
    a_score = milli.lit 0 0;
    intent_flagged = false;
    intent_label = [];
  };
}

abbrev pub response_of : Result (Failure Text) (InferenceResponse Milli) → InferenceResponse Milli
response_of (ok resp) = resp
response_of (err e) = no_response

abbrev pub resp : InferenceResponse Milli
resp = response_of first.0

abbrev pub server_of : Result Text Server → Server
server_of (ok r) = r
server_of (err e) = holding false

-- The state after the tasks of `first`.
abbrev pub second_server : Server
second_server = server_of (run_tasks env (holding false) first.1)

pub first_lem : first ≡ (ok resp, first.1)
unfolding service
first_lem = refl

pub first_runs : run_tasks env (holding false) first.1 ≡ ok second_server
unfolding service
first_runs = refl

pub first_tests :
    (resp.tier ≡ pos 2)
    × (resp.response ≡ codes "noisy")
    × (Sessions.get redis json (λ m. m) (holding false) hash ≡ ok (some (stored false)))
unfolding service
first_tests = (refl, refl, refl)
