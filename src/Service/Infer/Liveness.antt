-- ===== src/Service/Infer/Liveness.antt =====
-- engine/src/grpc/service.rs: a request whose calls of other parts succeed is answered.
use vyse.Prelude.{◌≡◌, true, Text, Result, ok, ◌>>=◌}
use vyse.Float.{Float}
use vyse.Store.Session
use vyse.Store.Session.{Session, tracking_duration_mins}
use vyse.Store.Redis as Sessions
use vyse.Words.{can_slice}
use vyse.Service.{InferenceRequest, Tier, Env, Inputs}

-- A computation that comes through.
abbrev pub Succeeds {ℓ κ} : {E : Type ℓ} {A : Type κ} → Result E A → Type (ℓ ⊔ κ)
Succeeds {A = A} m = (a : A) × (m ≡ ok a)

pub Succeeds->>= {ℓ κ μ} :
    {E : Type ℓ} {A : Type κ} {B : Type μ} (m : Result E A) (g : A → Result E B)
    → Succeeds m
    → ((a : A) → Succeeds (g a))
    → Succeeds (m >>= g)
Succeeds->>= m g (a, e) k = rw e (k a)

module _ {F E R : Type 0} ⦃f : Float F⦄ (env : Env F E R) (t : Inputs)
    (req : InferenceRequest) where
  -- The parts that the handler calls on behalf of this request come through.
  pub record Works : Type 0 where
    pub embeds : Succeeds (env.embed req.prompt)
    pub classifies :
        Succeeds (env.classify_intent req.prompt env.cfg.intent_labels env.cfg.intent_threshold)
    pub completes : Succeeds (env.complete req.prompt)
    pub applies :
        (response : Text) (tier : Tier) (seed : Text) → Succeeds (env.apply response tier seed)
    pub printable : can_slice 8 req.session_id_hash ≡ true
