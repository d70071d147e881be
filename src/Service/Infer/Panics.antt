-- ===== src/Service/Infer/Panics.antt =====
-- engine/src/grpc/service.rs, `handle_infer`: the one place where it may panic.
use vyse.Prelude.{
  ◌≡◌, ◌≢◌, inl, inr, Bool, true, false, if◌then◌else◌, List, Result, ok, err, ◌>>=◌, arith,
  Result-cases,
}
use vyse.Float.{Float}
use vyse.Store.Session.{Session}
use vyse.Words.{can_slice}
use vyse.Service.Tracing.{can_slice-can_trace}
use vyse.Service.{InferenceRequest, RequestScores, Env, Inputs, Failure, failed, panicked, lift}
use vyse.Service.Reply.{Prepared, finish}
use vyse.Service.Infer.{
  pooled, load_session, load_or_create, record_request, score, start_tracking, answer, judge,
  examine, prepare, handle_infer,
}

-- A computation that does not panic.
abbrev IsCalm : {E A : Type 0} → Result (Failure E) A → Type 0
IsCalm r = r ≢ err panicked

ok-IsCalm : {E A : Type 0} (a : A) → IsCalm {E = E} (ok a)
ok-IsCalm a = λ same. cc

failed-IsCalm : {E A : Type 0} (e : E) → IsCalm {A = A} (err (failed e))
failed-IsCalm e = λ same. cc

if-IsCalm :
    {E A : Type 0} (test : Bool) (m m' : Result (Failure E) A)
    → IsCalm m
    → IsCalm m'
    → IsCalm (if test then m else m')
if-IsCalm true m m' h h' = h
if-IsCalm false m m' h h' = h'

lift-IsCalm : {E A : Type 0} (r : Result E A) → IsCalm (lift r)
lift-IsCalm (ok a) = λ e. cc
lift-IsCalm (err e') = λ e. cc

bind-IsCalm :
    {E A B : Type 0} (r : Result (Failure E) A) (k : A → Result (Failure E) B)
    → IsCalm r
    → ((a : A) → IsCalm (k a))
    → IsCalm (r >>= k)
bind-IsCalm (ok a) k calm rest = rest a
bind-IsCalm (err e) k calm rest = λ same. calm (ground arith)

module _ {F E R : Type 0} ⦃f : Float F⦄ (env : Env F E R) (r : R) (t : Inputs)
    (req : InferenceRequest) (sliced : can_slice 8 req.session_id_hash ≡ true) where
  start_tracking-IsCalm :
      (scores : RequestScores F) (s : Session F) → IsCalm (start_tracking env t req scores s)
  unfolding start_tracking
  start_tracking-IsCalm scores s = ground arith

  answer-IsCalm :
      (scores : RequestScores F) (duration_mins : F) (s : Session F)
      → IsCalm (answer env t req scores duration_mins s)
  unfolding answer
  answer-IsCalm scores duration_mins s =
      bind-IsCalm (lift (env.complete req.prompt)) _ (lift-IsCalm (env.complete req.prompt))
        (λ response. bind-IsCalm (lift _) _ (lift-IsCalm _) (λ served. ok-IsCalm _))

  judge-IsCalm :
      (scores : RequestScores F) (embedding : List F) (s : Session F)
      → IsCalm (judge env t req scores embedding s)
  unfolding judge
  judge-IsCalm scores embedding s =
      bind-IsCalm (start_tracking env t req scores s) _ (start_tracking-IsCalm scores s)
        (λ tracked. answer-IsCalm scores _ _)

  examine-IsCalm : (s : Session F) → IsCalm (examine env t req s)
  unfolding examine
  examine-IsCalm s =
      bind-IsCalm (lift (env.embed req.prompt)) _ (lift-IsCalm (env.embed req.prompt)) (λ embedding.
        bind-IsCalm (lift _) _ (lift-IsCalm _)
          (λ intent. judge-IsCalm (score env t req s embedding intent.0 intent.1) embedding s))

  load_session-IsCalm : IsCalm (load_session env r req.session_id_hash)
  unfolding load_session
  load_session-IsCalm = rw (can_slice-can_trace req.session_id_hash sliced) (lift-IsCalm _)

  load_or_create-IsCalm : IsCalm (load_or_create env r t req)
  unfolding load_or_create
  load_or_create-IsCalm =
      bind-IsCalm (lift (pooled env t.pool_error)) _ (lift-IsCalm (pooled env t.pool_error))
        (λ granted.
          bind-IsCalm (load_session env r req.session_id_hash) _ load_session-IsCalm
            (λ found. if-IsCalm _ _ _ (failed-IsCalm _) (ok-IsCalm _)))

  prepare-IsCalm : IsCalm (prepare env r t req)
  unfolding prepare
  prepare-IsCalm =
      bind-IsCalm (load_or_create env r t req) _ load_or_create-IsCalm
        (λ loaded. examine-IsCalm (record_request env t req loaded))

  finish-IsCalm : (p : Prepared F) → IsCalm (finish env t req p).0
  unfolding finish
  finish-IsCalm p = ground arith

  -- A request whose hash can be cut at eight bytes does not panic, whatever the state, the clock and
  -- the functions of the environment are.
  pub handle_infer-never_panics : (handle_infer env r t req).0 ≢ err panicked
  unfolding handle_infer
  handle_infer-never_panics = elim (Result-cases (prepare env r t req)) [
    | inl (p, prepared) ↦ rw prepared (finish-IsCalm p)
    | inr (e, fails) ↦ λ same. prepare-IsCalm (ground arith)
  ]
