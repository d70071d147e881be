-- ===== src/Service/Infer/Guards.antt =====
-- engine/src/grpc/service.rs: what a request that fails leaves behind.
use vyse.Prelude.{
  ◌≡◌, inl, inr, ◌⊎◌, some, List, [], Text, err, arith, All, Result-cases, Option-cases,
}
use vyse.Float.{Float}
use vyse.Service.{InferenceRequest, Env, Inputs, Task, Failure}
use vyse.Service.Reply.{audit, finish}
use vyse.Service.Infer.{prepare, handle_infer}
use vyse.Service.Infer.Tasks.{IsAudit}
use vyse.Service.Infer.Outcome.{audit-IsAudit}

module _ {F E R : Type 0} ⦃f : Float F⦄ (env : Env F E R) (r : R) (t : Inputs)
    (req : InferenceRequest) where
  -- A request that fails or panics saves no session and writes no log row. It leaves at most the
  -- audit event, and that only where the second request for a connection was refused.
  pub handle_infer-failed :
      (e : Failure E) (tasks : List (Task F))
      → handle_infer env r t req ≡ (err e, tasks)
      → (tasks ≡ []) ⊎ ((m : Text) × (t.second_pool_error ≡ some m) × All IsAudit tasks)
  unfolding handle_infer
  handle_infer-failed e tasks h = elim (Result-cases (prepare env r t req)) [
    | inr (d, c) ↦ let nothing : tasks ≡ [] = ground arith in inl nothing
    | inl (p, c) ↦ elim (Option-cases t.second_pool_error) [
      | inl fine ↦ absurd (unfold finish in ground arith)
      | inr (m, refused) ↦
          let left : tasks ≡ audit env req p = unfold finish in ground arith in
          inr (m, refused, rw left (audit-IsAudit env r t req p))
    ]
  ]
