-- ===== src/Service/Infer/Outcome.antt =====
-- engine/src/grpc/service.rs, `handle_infer`: the theorems about requests that are answered.
use vyse.Prelude.{
  ℕ, ◌≡◌, ◌≢◌, refl, ◌∙◌, ap, sym, ◌⊎◌, inl, inr, Option, some, List, [], ◌∷◌, ◌++◌, Text, ok,
  arith, All,
}
use vyse.Float.{Float}
use vyse.Store.Session
use vyse.Store.Session.{Session, keep_last, trim, tracking_duration_mins}
use vyse.Store.Logs.{QueryLog}
use vyse.Store.Redis as Sessions
use vyse.Service.{
  InferenceRequest, InferenceResponse, Tier, clean, suspicious, malicious, Env, Inputs, Task,
  submit_tier3_event, save_session, insert_log,
}
use vyse.Service.Reply.{unwrap_or, Prepared, audit, log_of, respond}
use vyse.Service.Infer.{record_request, classify, seed_of, handle_infer}
use vyse.Service.Infer.Steps.{defend-Defended}
use vyse.Service.Infer.Profile.{
  Follows, load_or_create-Loaded, Examined-Judged, record_request-Follows,
}
use vyse.Service.Infer.Tasks.{audit_of, IsAudit, Answered, handle_infer-Answered}

audit_of-IsAudit :
    {F : Type 0} (tier : Tier) (event : Task F) → IsAudit event → All IsAudit (audit_of tier event)
audit_of-IsAudit clean event h = tt
audit_of-IsAudit suspicious event h = tt
audit_of-IsAudit malicious event h = (h, tt)

clean_or_not : (tier : Tier) → (tier ≡ clean) ⊎ (tier ≢ clean)
clean_or_not clean = inl refl
clean_or_not suspicious = inr (λ e. cc)
clean_or_not malicious = inr (λ e. cc)

-- The tasks save this session, with one log row behind it.
abbrev pub Saves : {F : Type 0} → ℕ → Session F → List (Task F) → Type 0
Saves {F} ttl s tasks =
    (events : List (Task F)) × (q : QueryLog F) × All IsAudit events
    × (tasks ≡ events ++ save_session s ttl ∷ insert_log q ∷ [])

module _ {F E R : Type 0} ⦃f : Float F⦄ (env : Env F E R) (r : R) (t : Inputs)
    (req : InferenceRequest) where
  audit-eq-audit_of :
      (p : Prepared F)
      → audit env req p
        ≡ audit_of p.tier (
            submit_tier3_event req.session_id_hash p.scores.hybrid p.duration_mins
              (unwrap_or p.session.noise_seed []))
  unfolding audit
  audit-eq-audit_of p = ground arith

  pub audit-IsAudit : (p : Prepared F) → All IsAudit (audit env req p)
  audit-IsAudit p = rw (audit-eq-audit_of p) (audit_of-IsAudit p.tier _ tt)

  module _ (resp : InferenceResponse F) (tasks : List (Task F))
      (answered : handle_infer env r t req ≡ (ok resp, tasks)) where
    -- An answered request spawns the audit event if and only if its tier is malicious, then one save
    -- of the session and one log row. Response, session and row agree on the tier and the score,
    -- response and row carry the ID of the request, and the audit event carries the hash, the hybrid
    -- score, the duration and the seed of the session, but no score of a signal.
    pub handle_infer-tasks :
        (tier : Tier) × (s : Session F) × (q : QueryLog F) × (tasks
          ≡ audit_of tier (
              submit_tier3_event req.session_id_hash resp.hybrid_score resp.duration_mins
                (unwrap_or s.noise_seed []))
            ++ save_session s env.cfg.session_ttl_secs ∷ insert_log q ∷ [])
        × (resp.tier ≡ env.as_i32 tier)
        × (s.tier ≡ env.as_i32 tier)
        × (q.tier ≡ env.as_i32 tier)
        × (s.current_hybrid_score ≡ resp.hybrid_score)
        × (q.hybrid_score ≡ resp.hybrid_score)
        × (resp.request_id ≡ req.request_id)
        × (q.request_id ≡ req.request_id)
    unfolding respond log_of
    handle_infer-tasks =
        let a = handle_infer-Answered env r t req resp tasks answered in
        let p = a.prepared in
        let j = Examined-Judged env r t req (record_request env t req a.loaded) p a.examined in
        rw (a.answer) (
          p.tier,
          p.session,
          log_of env t req p,
          a.left
              ∙ ap
                  (λ l.
                    l
                    ++ save_session p.session env.cfg.session_ttl_secs
                      ∷ insert_log (log_of env t req p)
                      ∷ [])
                  (audit-eq-audit_of p),
          refl,
          j.tier,
          refl,
          j.score,
          refl,
          refl,
          refl,
        )

    saved :
        (a : Answered env r t req resp tasks)
        → Saves env.cfg.session_ttl_secs a.prepared.session tasks
    saved a =
        (audit env req a.prepared, log_of env t req a.prepared, audit-IsAudit a.prepared, a.left)

    -- The session that an answered request saves is the stored one, or a new one where none was
    -- stored, with this request counted and appended to both histories, which keep their limits. It
    -- was not banned, and a start of tracking and a seed that it had are kept.
    pub handle_infer-session :
        (found : Option (Session F)) × (s : Session F) × (Sessions.get env.redis env.json
            env.internal r req.session_id_hash
          ≡ ok found)
        × Saves env.cfg.session_ttl_secs s tasks
        × Follows env t req (unwrap_or found (Session.new t.created req.session_id_hash)) s
    handle_infer-session =
        let a = handle_infer-Answered env r t req resp tasks answered in
        let l = load_or_create-Loaded env r t req a.loaded a.loading in
        let j =
          Examined-Judged env r t req (record_request env t req a.loaded) a.prepared a.examined in
        (
          l.found,
          a.prepared.session,
          l.read,
          saved a,
          rw (← l.same) (
              record_request-Follows env r t req a.loaded a.prepared.session a.prepared l.allowed
                j),
        )

    -- A clean request is answered with the model's response as it is. Any other one is answered
    -- with what the defence makes of that response by a seed, and that seed is saved with the
    -- session.
    pub handle_infer-noise :
        (tier : Tier) × (s : Session F) × (clean_response : Text) × (resp.tier ≡ env.as_i32 tier)
        × Saves env.cfg.session_ttl_secs s tasks
        × (env.complete req.prompt ≡ ok clean_response)
        × (((tier ≡ clean) × (resp.response ≡ clean_response))
            ⊎ ((seed : Text) × (tier ≢ clean)
                × (env.apply clean_response tier seed ≡ ok resp.response)
                × (s.noise_seed ≡ some seed)))
    unfolding respond
    handle_infer-noise =
        let a = handle_infer-Answered env r t req resp tasks answered in
        let p = a.prepared in
        let x = a.examined in
        let s = classify env p.scores p.duration_mins x.embedding x.tracked in
        let d =
          defend-Defended env t req p.tier x.clean_response s p.served_response p.noise_applied
            p.session x.defended in
        let answer : resp.response ≡ p.served_response = ap (λ w. w.response) a.answer in
        (
          p.tier,
          p.session,
          x.clean_response,
          ap (λ w. w.tier) a.answer,
          saved a,
          x.completed,
          elim (clean_or_not p.tier) [
            | inl e ↦ inl (e, answer ∙ (d.untouched e).0)
            | inr ne ↦
                let (applied, _, kept) = d.perturbed ne in
                inr (seed_of env t req s, ne, applied ∙ ap ok (sym answer), kept)
          ],
        )
