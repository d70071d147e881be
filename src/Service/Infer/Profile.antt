-- ===== src/Service/Infer/Profile.antt =====
-- engine/src/grpc/service.rs, `handle_infer`: what its steps make of the session, from the one that
-- was loaded to the one that is saved.
use vyse.Prelude.{
  ◌+◌, ◌%◌, ◌^◌, ◌≡◌, ◌∙◌, ap, sym, ◌⊎◌, inl, inr, false, Option, none, [], ◌∷◌, ◌++◌, ok, arith,
  Result-cases, Bool-cases, Option-cases,
}
use vyse.Float.{Float}
use vyse.Store.Session
use vyse.Store.Session.{Session, keep_last, trim, tracking_duration_mins}
use vyse.Store.Redis as Sessions
use vyse.Service.{prompt_limit, InferenceRequest, Env, Inputs}
use vyse.Service.Reply.{unwrap_or, Prepared}
use vyse.Service.Infer.{load_session, load_or_create, record_request, classify}
use vyse.Service.Infer.Steps.{Examined, start_tracking-Tracked, defend-Defended}

-- What one answered request makes of the session `old`.
pub record Follows {F E R : Type 0} (env : Env F E R) (t : Inputs) (req : InferenceRequest)
    (old s : Session F) : Type 0 where
  pub hash : s.session_id_hash ≡ old.session_id_hash
  pub first_seen : s.first_seen_at ≡ old.first_seen_at
  pub last_active : s.last_active_at ≡ t.now
  pub count : s.request_count ≡ (old.request_count + 1) % 2 ^ 64
  pub times : s.timestamps ≡ keep_last env.cfg.max_timestamps (old.timestamps ++ t.now ∷ [])
  pub prompts :
      s.prompt_history ≡ keep_last (prompt_limit env.cfg) (old.prompt_history ++ req.prompt ∷ [])
  pub banned : s.is_banned ≡ false
  pub tracking :
      (old.tracking_started_at ≡ none) ⊎ (s.tracking_started_at ≡ old.tracking_started_at)
  pub seed : (old.noise_seed ≡ none) ⊎ (s.noise_seed ≡ old.noise_seed)

module _ {F E R : Type 0} ⦃f : Float F⦄ (env : Env F E R) (r : R) (t : Inputs)
    (req : InferenceRequest) where
  -- What the load returned.
  pub load_session-ok :
      (found : Option (Session F))
      → load_session env r req.session_id_hash ≡ ok found
      → Sessions.get env.redis env.json env.internal r req.session_id_hash ≡ ok found
  unfolding load_session
  load_session-ok found h =
      elim (Result-cases (Sessions.get env.redis env.json env.internal r req.session_id_hash)) [
        | inl (other, read) ↦ ground arith
        | inr (e, bad) ↦ absurd (ground arith)
      ]

  -- What step 1 returned.
  pub record Loaded (s : Session F) : Type 0 where
    pub found : Option (Session F)
    pub read : Sessions.get env.redis env.json env.internal r req.session_id_hash ≡ ok found
    pub same : s ≡ unwrap_or found (Session.new t.created req.session_id_hash)
    pub allowed : s.is_banned ≡ false

  pub load_or_create-Loaded : (s : Session F) → load_or_create env r t req ≡ ok s → Loaded s
  unfolding load_or_create
  load_or_create-Loaded s h = elim (Option-cases t.pool_error) [
    | inr (m, c) ↦ absurd (ground arith)
    | inl c ↦ elim (Result-cases (load_session env r req.session_id_hash)) [
      | inr (e, d) ↦ absurd (ground arith)
      | inl (found, d) ↦
          let session : Session F = unwrap_or found (Session.new t.created req.session_id_hash) in
          elim (Bool-cases session.is_banned) [
            | inl banned ↦ absurd (ground arith)
            | inr allowed ↦
                let same : s ≡ session = ground arith in
                record {
                  found = found;
                  read = load_session-ok found d;
                  same = same;
                  allowed = rw same allowed;
                }
          ]
    ]
  ]

  -- What steps 3 to 9 make of the session: the verdict of this request, and perhaps a start of
  -- tracking and a seed.
  pub record Judged (s s' : Session F) (p : Prepared F) : Type 0 where
    pub hash : s'.session_id_hash ≡ s.session_id_hash
    pub tier : s'.tier ≡ env.as_i32 p.tier
    pub first_seen : s'.first_seen_at ≡ s.first_seen_at
    pub last_active : s'.last_active_at ≡ s.last_active_at
    pub count : s'.request_count ≡ s.request_count
    pub score : s'.current_hybrid_score ≡ p.scores.hybrid
    pub times : s'.timestamps ≡ s.timestamps
    pub prompts : s'.prompt_history ≡ s.prompt_history
    pub banned : s'.is_banned ≡ s.is_banned
    pub tracking : (s.tracking_started_at ≡ none) ⊎ (s'.tracking_started_at ≡ s.tracking_started_at)
    pub seed : (s.noise_seed ≡ none) ⊎ (s'.noise_seed ≡ s.noise_seed)

  pub Examined-Judged :
      (s : Session F) (p : Prepared F) → Examined env t req s p → Judged s p.session p
  unfolding classify
  Examined-Judged s p x =
      let d =
        defend-Defended env t req p.tier x.clean_response
          (classify env p.scores p.duration_mins x.embedding x.tracked) p.served_response
          p.noise_applied p.session x.defended in
      let k = start_tracking-Tracked env t req p.scores s x.tracked x.tracking in
      record {
        hash = ap (λ w. w.session_id_hash) d.rest ∙ ap (λ w. w.session_id_hash) k.rest;
        tier = ap (λ w. w.tier) d.rest ∙ ap env.as_i32 (sym x.tier);
        first_seen = ap (λ w. w.first_seen_at) d.rest ∙ ap (λ w. w.first_seen_at) k.rest;
        last_active = ap (λ w. w.last_active_at) d.rest ∙ ap (λ w. w.last_active_at) k.rest;
        count = ap (λ w. w.request_count) d.rest ∙ ap (λ w. w.request_count) k.rest;
        score = ap (λ w. w.current_hybrid_score) d.rest;
        times = ap (λ w. w.timestamps) d.rest ∙ ap (λ w. w.timestamps) k.rest;
        prompts = ap (λ w. w.prompt_history) d.rest ∙ ap (λ w. w.prompt_history) k.rest;
        banned = ap (λ w. w.is_banned) d.rest ∙ ap (λ w. w.is_banned) k.rest;
        tracking = elim (Option-cases s.tracking_started_at) [
          | inl fresh ↦ inl fresh
          | inr (start, e) ↦ inr (ap (λ w. w.tracking_started_at) d.rest ∙ k.kept start e ∙ sym e)
        ];
        seed = elim (Option-cases s.noise_seed) [
          | inl fresh ↦ inl fresh
          | inr (seed, e) ↦ inr (d.kept seed (ap (λ w. w.noise_seed) k.rest ∙ e) ∙ sym e)
        ];
      }

  pub record_request-Follows :
      (old s : Session F) (p : Prepared F)
      → old.is_banned ≡ false
      → Judged (record_request env t req old) s p
      → Follows env t req old s
  unfolding record_request trim
  record_request-Follows old s p b j = record {
    hash = j.hash;
    first_seen = j.first_seen;
    last_active = j.last_active;
    count = j.count;
    times = j.times;
    prompts = j.prompts;
    banned = j.banned ∙ b;
    tracking = j.tracking;
    seed = j.seed;
  }
