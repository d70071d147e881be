-- ===== src/Service/Engine/Counting.antt =====
-- engine/src/grpc/service.rs: the counts of the stored sessions against the requests that were made.
use vyse.Prelude.{
  ℕ, ◌+◌, ◌≤◌, ◌≡◌, refl, ◌∙◌, none, some, List, [], ◌∷◌, ◌++◌, Text, ok, arith, All, All-append,
  text_eq, text_eq_refl, if◌then◌else◌, Option,
}
use vyse.Float.{Float}
use vyse.Store.Session
use vyse.Store.Session.{Session}
use vyse.Store.Redis as Sessions
use vyse.Store.Redis.{session_key}
use vyse.Service.{InferenceRequest, Env, Inputs, Task, submit_tier3_event, save_session, insert_log}
use vyse.Service.Reply.{unwrap_or}
use vyse.Service.Infer.{infer}
use vyse.Service.Infer.Profile.{Follows}
use vyse.Service.Engine.{
  RedisCells, Engine, Step, request, finished, dropped, deleted, expired, Reach, started, next,
}
use vyse.Service.Engine.Spawned.{IsSaved, infer-IsSaved}
use vyse.Service.Engine.Stored.{
  IsStored, Holds, get-IsStored, Loses-IsStored, delete_session-Loses, finished-Holds,
  dropped-Holds,
}

-- The session carries the hash, and counts no more than these requests.
abbrev IsCounted : {F : Type 0} → (Text → ℕ) → Text → Session F → Type 0
IsCounted n hash s = (s.session_id_hash ≡ hash) × (s.request_count ≤ n hash)

IsSaved-mono :
    {F : Type 0} (n n' : Text → ℕ) (tasks : List (Task F))
    → ((hash : Text) → n hash ≤ n' hash)
    → All (IsSaved (IsCounted n)) tasks
    → All (IsSaved (IsCounted n')) tasks
IsSaved-mono n n' [] more h = tt
IsSaved-mono n n' (submit_tier3_event _ _ _ _ ∷ tasks) more (_, h) =
    (tt, IsSaved-mono n n' tasks more h)
IsSaved-mono n n' (save_session s ttl ∷ tasks) more ((same, count), h) =
    ((same, omega (arith, more s.session_id_hash)), IsSaved-mono n n' tasks more h)
IsSaved-mono n n' (insert_log _ ∷ tasks) more (_, h) = (tt, IsSaved-mono n n' tasks more h)

module _ {F E R : Type 0} ⦃f : Float F⦄ (env : Env F E R) (cells : RedisCells E R env.redis) where
  -- The requests of a session up to a step, of which `n` came before it.
  abbrev pub asked_in : Text → ℕ → {e e' : Engine F R} → Step env cells e e' → ℕ
  asked_in hash n (request e t req) = if text_eq req.session_id_hash hash then 1 + n else n
  asked_in hash n (finished before after task r r' done) = n
  asked_in hash n (dropped before after task r error lost) = n
  asked_in hash n (deleted e pool_error h) = n
  asked_in hash n (expired e r loses) = n

  -- The requests of a session in a run.
  abbrev pub asked_for : Text → {e : Engine F R} → Reach env cells e → ℕ
  asked_for hash (started r empty) = 0
  asked_for hash (next reached step) = asked_in hash (asked_for hash reached) step

  -- What an answered request saves counts one more than what it loaded.
  answered-IsCounted :
      (n n' : Text → ℕ) (r : R) (t : Inputs) (req : InferenceRequest) (found : Option (Session F))
      (s : Session F)
      → n' req.session_id_hash ≡ 1 + n req.session_id_hash
      → IsStored env (IsCounted n) cells r
      → Sessions.get env.redis env.json env.internal r req.session_id_hash ≡ ok found
      → Follows env t req (unwrap_or found (Session.new t.created req.session_id_hash)) s
      → IsCounted n' s.session_id_hash s
  unfolding Session.new
  answered-IsCounted n n' r t req none s one stored read w =
      let hash : s.session_id_hash ≡ req.session_id_hash = w.hash in
      (refl, rw hash (omega (arith, one, w.count)))
  answered-IsCounted n n' r t req (some old) s one stored read w =
      let (same, count) =
        get-IsStored env (IsCounted n) cells r req.session_id_hash old stored read in
      let hash : s.session_id_hash ≡ req.session_id_hash = w.hash ∙ same in
      (refl, rw hash (omega (arith, one, count, w.count)))

  request-IsCounted :
      (n n' : Text → ℕ) (e : Engine F R) (t : Inputs) (req : InferenceRequest)
      → ((hash : Text) → n hash ≤ n' hash)
      → n' req.session_id_hash ≡ 1 + n req.session_id_hash
      → Holds env (IsCounted n) cells e
      → Holds env
          (IsCounted n')
          cells
          (record e { pending = e.pending ++ (infer env e.server t req).1 })
  request-IsCounted n n' e t req more one (stored, saved) = (
    λ hash raw s held read.
        let (same, count) = stored hash raw s held read in (same, omega (arith, more hash)),
    All-append (IsSaved (IsCounted n')) e.pending _ (IsSaved-mono n n' e.pending more saved) (
        infer-IsSaved env (IsCounted n') e.server t req
          (λ found s read w. answered-IsCounted n n' e.server t req found s one stored read w)),
  )

  module _
      (back : (s s' : Session F) (raw : Text)
        → env.json.to_string s ≡ ok raw
        → env.json.from_str raw ≡ ok s'
        → s' ≡ s) where
    Step-IsCounted :
        (n : Text → ℕ) {e e' : Engine F R} (step : Step env cells e e')
        → Holds env (IsCounted n) cells e
        → Holds env (IsCounted (λ hash. asked_in hash (n hash) step)) cells e'
    Step-IsCounted n (request e t req) holds =
        request-IsCounted n _ e t req (λ hash. ground arith)
          (rw (text_eq_refl req.session_id_hash) refl) holds
    Step-IsCounted n (finished before after task r r' done) holds =
        finished-Holds env (IsCounted n) cells back before after task r r' done holds
    Step-IsCounted n (dropped before after task r error lost) holds =
        dropped-Holds env (IsCounted n) cells before after task r holds
    Step-IsCounted n (deleted e pool_error hash) (stored, saved) = (
      Loses-IsStored env (IsCounted n) cells e.server _
          (delete_session-Loses env (IsCounted n) cells pool_error e.server hash) stored,
      saved,
    )
    Step-IsCounted n (expired e r loses) (stored, saved) =
        (Loses-IsStored env (IsCounted n) cells e.server r loses stored, saved)

    Reach-IsCounted :
        {e : Engine F R} (reached : Reach env cells e)
        → Holds env (IsCounted (λ hash. asked_for hash reached)) cells e
    Reach-IsCounted (started r empty) =
        (λ hash raw s held read. absurd (ground (arith, empty (session_key hash))), tt)
    Reach-IsCounted (next reached step) =
        Step-IsCounted (λ hash. asked_for hash reached) step (Reach-IsCounted reached)

    -- However requests, tasks, deletions and expiries interleave from an empty Redis on, a stored
    -- session never counts more requests than were made for its hash. (What `serde_json` reads
    -- back from a session that it wrote is that session.)
    pub Reach-count :
        (e : Engine F R) (hash : Text) (s : Session F) (reached : Reach env cells e)
        → Sessions.get env.redis env.json env.internal e.server hash ≡ ok (some s)
        → s.request_count ≤ asked_for hash reached
    Reach-count e hash s reached read =
        (get-IsStored env (IsCounted (λ hash. asked_for hash reached)) cells e.server hash s
          (Reach-IsCounted reached).0 read).1
