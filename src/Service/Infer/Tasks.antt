-- ===== src/Service/Infer/Tasks.antt =====
-- engine/src/grpc/service.rs, `handle_infer`: what an answered request leaves behind, and what a
-- failed one does not.
use vyse.Prelude.{◌≡◌, inl, inr, List, [], ◌∷◌, ◌++◌, ok, arith, Result-cases, Option-cases}
use vyse.Float.{Float}
use vyse.Store.Session.{Session}
use vyse.Service.{
  InferenceRequest, InferenceResponse, Tier, malicious, Env, Inputs, Task, submit_tier3_event,
  save_session, insert_log,
}
use vyse.Service.Reply.{Prepared, audit, log_of, respond, finish}
use vyse.Service.Infer.{load_or_create, record_request, examine, prepare, handle_infer}
use vyse.Service.Infer.Steps.{Examined, examine-Examined}

-- The audit event of a Tier 3 request, and nothing for the others.
abbrev pub audit_of : {F : Type 0} → Tier → Task F → List (Task F)
audit_of malicious event = event ∷ []
audit_of _ event = []

-- Audit events change neither the sessions nor the log.
abbrev pub IsAudit : {F : Type 0} → Task F → Type 0
IsAudit (submit_tier3_event _ _ _ _) = Unit
IsAudit (save_session _ _) = ⊥
IsAudit (insert_log _) = ⊥

module _ {F E R : Type 0} ⦃f : Float F⦄ (env : Env F E R) (r : R) (t : Inputs)
    (req : InferenceRequest) where
  -- An answered request, with what it computed.
  pub record Answered (resp : InferenceResponse F) (tasks : List (Task F)) : Type 0 where
    pub loaded : Session F
    pub prepared : Prepared F
    pub loading : load_or_create env r t req ≡ ok loaded
    pub examined : Examined env t req (record_request env t req loaded) prepared
    pub answer : resp ≡ respond env req prepared
    pub left :
        tasks
        ≡ audit env req prepared
          ++ save_session prepared.session env.cfg.session_ttl_secs
            ∷ insert_log (log_of env t req prepared)
            ∷ []

  pub handle_infer-Answered :
      (resp : InferenceResponse F) (tasks : List (Task F))
      → handle_infer env r t req ≡ (ok resp, tasks)
      → Answered resp tasks
  unfolding handle_infer prepare
  handle_infer-Answered resp tasks h = elim (Result-cases (load_or_create env r t req)) [
    | inr (e, c) ↦ absurd (ground arith)
    | inl (loaded, c) ↦ elim (Result-cases (examine env t req (record_request env t req loaded))) [
      | inr (e, d) ↦ absurd (ground arith)
      | inl (p, d) ↦ elim (Option-cases t.second_pool_error) [
        | inr (m, refused) ↦ absurd (unfold finish in ground arith)
        | inl fine ↦ record {
          loaded = loaded;
          prepared = p;
          loading = c;
          examined = examine-Examined env t req (record_request env t req loaded) p d;
          answer = unfold finish in ground arith;
          left = unfold finish in ground arith;
        }
      ]
    ]
  ]
