-- ===== src/Service/Engine/Spawned.antt =====
-- engine/src/grpc/service.rs: what a request leaves to its spawned tasks, for any predicate on the
-- sessions that they save.
use vyse.Prelude.{
  ◌≡◌, refl, ap, ◌⊎◌, inl, inr, Option, List, [], ◌∷◌, Text, ok, All, All-append, Result-cases,
  Bool-cases, is_empty,
}
use vyse.Float.{Float}
use vyse.Store.Session
use vyse.Store.Session.{Session}
use vyse.Store.Redis as Sessions
use vyse.Store.Redis.{session_key}
use vyse.Service.{
  InferenceRequest, Env, Inputs, Task, submit_tier3_event, save_session, insert_log, can_trace,
}
use vyse.Service.Reply.{unwrap_or}
use vyse.Service.Infer.{handle_infer, infer}
use vyse.Service.Infer.Tasks.{IsAudit}
use vyse.Service.Infer.Profile.{Follows}
use vyse.Service.Infer.Outcome.{handle_infer-session}
use vyse.Service.Infer.Guards.{handle_infer-failed}

-- A task that saves a session saves one that satisfies the predicate, for its hash.
abbrev pub IsSaved : {F : Type 0} → (Text → Session F → Type 0) → Task F → Type 0
IsSaved P (save_session s ttl) = P s.session_id_hash s
IsSaved P (submit_tier3_event _ _ _ _) = Unit
IsSaved P (insert_log _) = Unit

IsAudit-IsSaved :
    {F : Type 0} (P : Text → Session F → Type 0) (tasks : List (Task F))
    → All IsAudit tasks
    → All (IsSaved P) tasks
IsAudit-IsSaved P [] h = tt
IsAudit-IsSaved P (submit_tier3_event _ _ _ _ ∷ tasks) (_, h) = (tt, IsAudit-IsSaved P tasks h)
IsAudit-IsSaved P (save_session _ _ ∷ tasks) (bad, h) = absurd bad
IsAudit-IsSaved P (insert_log _ ∷ tasks) (bad, h) = absurd bad

module _ {F E R : Type 0} ⦃f : Float F⦄ (env : Env F E R) (P : Text → Session F → Type 0) where
  module _ (r : R) (t : Inputs) (req : InferenceRequest)
      (answered : (found : Option (Session F)) (s : Session F)
        → Sessions.get env.redis env.json env.internal r req.session_id_hash ≡ ok found
        → Follows env t req (unwrap_or found (Session.new t.created req.session_id_hash)) s
        → P s.session_id_hash s) where
    handle_infer-IsSaved : All (IsSaved P) (handle_infer env r t req).1
    handle_infer-IsSaved =
        let tasks = (handle_infer env r t req).1 in
        elim (Result-cases (handle_infer env r t req).0) [
          | inl (resp, e) ↦
              let (found, s, read, (events, q, audits, left), follows) =
                handle_infer-session env r t req resp tasks (ap (λ x. (x, tasks)) e) in
              rw left (
                All-append (IsSaved P) events _ (IsAudit-IsSaved P events audits)
                  (answered found s read follows, (tt, tt)))
          | inr (error, e) ↦
              elim (handle_infer-failed env r t req error tasks (ap (λ x. (x, tasks)) e)) [
                | inl nothing ↦ rw nothing tt
                | inr (m, refused, audits) ↦ IsAudit-IsSaved P tasks audits
              ]
        ]

    -- A refused request spawns nothing.
    infer-tasks :
        ((infer env r t req).1 ≡ []) ⊎ ((infer env r t req).1 ≡ (handle_infer env r t req).1)
    unfolding infer
    infer-tasks = elim (Bool-cases (can_trace req.session_id_hash)) [
      | inr hidden ↦ inl (rw hidden refl)
      | inl seen ↦ elim (Bool-cases (is_empty req.session_id_hash)) [
        | inl no_hash ↦ inl (rw (seen, no_hash) refl)
        | inr hash ↦ elim (Bool-cases (is_empty req.prompt)) [
          | inl no_prompt ↦ inl (rw (seen, hash, no_prompt) refl)
          | inr prompt ↦ inr (rw (seen, hash, prompt) refl)
        ]
      ]
    ]

    -- A request saves sessions that satisfy the predicate, if an answered one does.
    pub infer-IsSaved : All (IsSaved P) (infer env r t req).1
    infer-IsSaved = elim infer-tasks [
      | inl nothing ↦ rw nothing tt
      | inr passed ↦ rw passed handle_infer-IsSaved
    ]
