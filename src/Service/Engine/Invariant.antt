-- ===== src/Service/Engine/Invariant.antt =====
-- engine/src/grpc/service.rs: what holds of every stored session, however the requests and the
-- spawned tasks of the service interleave.
use vyse.Prelude.{
  ◌^◌, ◌≤◌, ◌<◌, ◌≡◌, refl, ◌>>=◌, false, none, some, [], ◌∷◌, ◌++◌, length, Text, ok, inl, inr,
  arith, All-append, Result-cases,
}
use vyse.Float.{Float}
use vyse.Store.Session
use vyse.Store.Session.{Session}
use vyse.Store.Session.Trim.{length-keep_last}
use vyse.Store.Redis as Sessions
use vyse.Store.Redis.{session_key}
use vyse.Service.{prompt_limit, InferenceRequest, Env, Inputs, lift}
use vyse.Service.Reply.{unwrap_or}
use vyse.Service.Infer.{pooled, load_session, load_or_create}
use vyse.Service.Infer.Profile.{Follows, load_session-ok}
use vyse.Service.Engine.{
  RedisCells, Engine, Step, request, finished, dropped, deleted, expired, Reach, started, next,
}
use vyse.Service.Engine.Spawned.{IsSaved, infer-IsSaved}
use vyse.Service.Engine.Stored.{
  Holds, get-IsStored, Loses-IsStored, delete_session-Loses, finished-Holds, dropped-Holds,
}

module _ {F E R : Type 0} (env : Env F E R) where
  -- Both histories keep their limits, the count is a `u64`, and the session is not banned.
  pub record WellFormed (s : Session F) : Type 0 where
    pub times : length s.timestamps ≤ env.cfg.max_timestamps
    pub prompts : length s.prompt_history ≤ prompt_limit env.cfg
    pub count : s.request_count < 2 ^ 64
    pub allowed : s.is_banned ≡ false

  -- The session carries the hash that it is stored under, and is well-formed.
  abbrev IsSound : Text → Session F → Type 0
  IsSound hash s = (s.session_id_hash ≡ hash) × WellFormed s

  Follows-WellFormed :
      (t : Inputs) (req : InferenceRequest) (old s : Session F)
      → Follows env t req old s
      → WellFormed s
  Follows-WellFormed t req old s w = record {
    times =
        rw w.times
          (omega (arith, length-keep_last env.cfg.max_timestamps (old.timestamps ++ t.now ∷ [])));
    prompts = rw w.prompts (
        omega
          (arith, length-keep_last (prompt_limit env.cfg) (old.prompt_history ++ req.prompt ∷ [])));
    count = rw w.count (omega arith);
    allowed = w.banned;
  }

module _ {F E R : Type 0} ⦃f : Float F⦄ (env : Env F E R) (cells : RedisCells E R env.redis)
    (back : (s s' : Session F) (raw : Text)
      → env.json.to_string s ≡ ok raw
      → env.json.from_str raw ≡ ok s'
      → s' ≡ s) where
  Step-IsSound :
      {e e' : Engine F R}
      → Step env cells e e'
      → Holds env (IsSound env) cells e
      → Holds env (IsSound env) cells e'
  Step-IsSound (request e t req) (stored, saved) = (
    stored,
    All-append (IsSaved (IsSound env)) e.pending _ saved (
        infer-IsSaved env (IsSound env) e.server t req
          (λ found s read follows. (refl, Follows-WellFormed env t req _ s follows))),
  )
  Step-IsSound (finished before after task r r' done) holds =
      finished-Holds env (IsSound env) cells back before after task r r' done holds
  Step-IsSound (dropped before after task r error lost) holds =
      dropped-Holds env (IsSound env) cells before after task r holds
  Step-IsSound (deleted e pool_error hash) (stored, saved) = (
    Loses-IsStored env (IsSound env) cells e.server _
        (delete_session-Loses env (IsSound env) cells pool_error e.server hash) stored,
    saved,
  )
  Step-IsSound (expired e r loses) (stored, saved) =
      (Loses-IsStored env (IsSound env) cells e.server r loses stored, saved)

  pub Reach-IsSound : {e : Engine F R} → Reach env cells e → Holds env (IsSound env) cells e
  Reach-IsSound (started r empty) =
      (λ hash raw s held read. absurd (ground (arith, empty (session_key hash))), tt)
  Reach-IsSound (next reached step) = Step-IsSound step (Reach-IsSound reached)

  -- However requests, the tasks that they spawned, deletions and expiries interleave from an empty
  -- Redis on: a session that loads for a hash carries that hash, its histories keep their limits,
  -- its count is a `u64`, and it is not banned. (What `serde_json` reads back from a session that
  -- it wrote is that session.)
  pub Reach-get :
      (e : Engine F R) (hash : Text) (s : Session F)
      → Reach env cells e
      → Sessions.get env.redis env.json env.internal e.server hash ≡ ok (some s)
      → (s.session_id_hash ≡ hash) × WellFormed env s
  Reach-get e hash s reached read =
      get-IsStored env (IsSound env) cells e.server hash s (Reach-IsSound reached).0 read

  -- No request is ever refused as banned: in every reachable state, the first step of a request is
  -- the same as without its test of `is_banned`. (What `serde_json` reads back from a session that
  -- it wrote is that session.)
  pub load_or_create-never_banned :
      (e : Engine F R) (t : Inputs) (req : InferenceRequest)
      → Reach env cells e
      → load_or_create env e.server t req ≡ (
          lift (pooled env t.pool_error) >>= λ _.
          load_session env e.server req.session_id_hash >>= λ found.
          ok (unwrap_or found (Session.new t.created req.session_id_hash)))
  unfolding load_or_create Session.new
  load_or_create-never_banned e t req reached =
      elim (Result-cases (load_session env e.server req.session_id_hash)) [
        | inr (error, failed) ↦ rw failed refl
        | inl (none, missing) ↦ rw missing refl
        | inl (some s, found) ↦
            let read = load_session-ok env e.server t req (some s) found in
            let fine = (Reach-get e req.session_id_hash s reached read).1 in
            rw (found, fine.allowed) refl
      ]
