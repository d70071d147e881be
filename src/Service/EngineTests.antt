-- ===== src/Service/EngineTests.antt =====
-- A run of the step relation of engine/src/grpc/service.rs: a request on an empty Redis, whose save
-- has ended; and an answered request.
use vyse.Prelude.{
  ℕ, ◌≤◌, ◌≡◌, ◌≢◌, refl, ap, text_eq_refl, ◌∙◌, sym, inl, inr, true, false, Option, none, List, [],
  ◌∷◌, Text, text_eq, text_eq_iff, Result, ok, err, ◌>>=◌, arith, Bool-cases,
}
use vyse.Float.Milli.{Milli, milli}
use vyse.Store.Session
use vyse.Store.Session.{Session}
use vyse.Store.Redis as Sessions
use vyse.Store.Sample.{Server, redis, json, same_session}
use vyse.Service.{Task, submit_tier3_event, lift}
use vyse.Service.Reply.{unwrap_or}
use vyse.Service.Infer.{infer, pooled, load_session, load_or_create}
use vyse.Service.Infer.Races.{run_task}
use vyse.Service.Engine.{RedisCells, Engine, request, finished, Reach, started, next}
use vyse.Service.Engine.Invariant.{WellFormed, Reach-get, load_or_create-never_banned}
use vyse.Service.Engine.Counting.{asked_for, Reach-count}
use vyse.Service.Sample.{env, hash, stored, at}
use vyse.Service.Sample.Runs.{service, probe, server_of, holding}

abbrev server_after : Result Text (ℕ × Server) → Server
server_after (ok (n, r)) = r
server_after (err e) = holding false

abbrev cells : RedisCells Text Server redis
cells = record {
  cell = λ r k. r.cell k;
  get-cell = λ r k o got. ground arith;
  set_ex_self =
      λ r r' k v ttl put. sym (ap (λ x. (server_of x).cell k) put) ∙ rw (text_eq_refl k) refl;
  set_ex_ne =
      λ r r' k j v ttl ne put. sym (ap (λ x. (server_of x).cell j) put) ∙ rw (apart k j ne) refl;
  del_loses = λ r r' k j n done. elim (Bool-cases (text_eq k j)) [
    | inl same ↦ inl (sym (ap (λ x. (server_after x).cell j) done) ∙ rw same refl)
    | inr other ↦ inr (sym (ap (λ x. (server_after x).cell j) done) ∙ rw other refl)
  ];
}
  where
    apart : (k j : Text) → k ≢ j → text_eq k j ≡ false
    apart k j ne = ground (arith, text_eq_iff k j)

abbrev empty : Server
empty = record { cell = λ k. none; names = [] }

abbrev asked : List (Task Milli)
asked = (infer env empty (at 1000000000) probe).1

abbrev first_of : List (Task Milli) → Task Milli
first_of [] = submit_tier3_event [] (milli.lit 0 0) (milli.lit 0 0) []
first_of (task ∷ tasks) = task

abbrev rest_of : List (Task Milli) → List (Task Milli)
rest_of [] = []
rest_of (task ∷ tasks) = tasks

abbrev saved : Server
saved = server_of (run_task env empty (first_of asked))

abbrev engine : Engine Milli Server
engine = record { server = saved; pending = rest_of asked }

engine-Reach : Reach env cells engine
unfolding service
engine-Reach =
    next
      (next (started empty (λ k. refl))
        (request (record { server = empty; pending = [] }) (at 1000000000) probe))
      (finished [] (rest_of asked) (first_of asked) empty saved refl)

abbrev found : Option (Session Milli)
found = elim (Sessions.get redis json (λ m. m) saved hash) [ ok s ↦ s | err e ↦ none ]

abbrev found_session : Session Milli
found_session = unwrap_or found (stored true)

Reach-get_example : (found_session.session_id_hash ≡ hash) × WellFormed env found_session
Reach-get_example =
    Reach-get env cells same_session engine hash found_session engine-Reach (unfold service in refl)

Reach-count_example : found_session.request_count ≤ asked_for env cells hash engine-Reach
Reach-count_example =
    Reach-count env cells same_session engine hash found_session engine-Reach
      (unfold service in refl)

load_or_create-never_banned_example : load_or_create env saved (at 5) probe ≡ (
    lift (pooled env none) >>= λ _.
    load_session env saved hash >>= λ found. ok (unwrap_or found (Session.new 5 hash)))
load_or_create-never_banned_example =
    load_or_create-never_banned env cells same_session engine (at 5) probe engine-Reach
