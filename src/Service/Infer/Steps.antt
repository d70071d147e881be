-- ===== src/Service/Infer/Steps.antt =====
-- engine/src/grpc/service.rs: what the single steps of `handle_infer` do, and the trace of a request
-- that came through all of them.
use vyse.Prelude.{
  ◌≡◌, ◌≢◌, refl, inl, inr, Bool, true, false, Option, none, some, List, Text, Result, ok, err,
  ◌>>=◌, arith, Result-cases,
}
use vyse.Float.{Float}
use vyse.Clock.{DateTime}
use vyse.Store.Session.{Session, tracking_duration_mins}
use vyse.Service.{InferenceRequest, Tier, clean, suspicious, malicious, RequestScores, Env, Inputs}
use vyse.Service.Reply.{Prepared}
use vyse.Service.Infer.{
  score, start_tracking, classify, seed_of, perturb, defend, answer, judge, examine,
}

pub >>=-eq-ok {ℓ κ μ} :
    {E : Type ℓ} {A : Type κ} {B : Type μ} (m : Result E A) (g : A → Result E B) {b : B}
    → (m >>= g) ≡ ok b
    → (a : A) × (m ≡ ok a) × (g a ≡ ok b)
>>=-eq-ok (ok a) g h = (a, refl, h)
>>=-eq-ok (err e) g h = cc

module _ {F E R : Type 0} ⦃f : Float F⦄ (env : Env F E R) (t : Inputs)
    (req : InferenceRequest) where
  -- Steps 8 and 9 came through.
  record Answered (scores : RequestScores F) (duration : F) (s : Session F) (p : Prepared F)
      : Type 0 where
    clean_response : Text
    completed : env.complete req.prompt ≡ ok clean_response
    same_scores : p.scores ≡ scores
    same_duration : p.duration_mins ≡ duration
    tier : p.tier ≡ env.classify_tier scores duration
    defended :
        defend env t req p.tier clean_response s
        ≡ ok (p.served_response, p.noise_applied, p.session)

  answer-Answered :
      (scores : RequestScores F) (duration : F) (s : Session F) (p : Prepared F)
      → answer env t req scores duration s ≡ ok p
      → Answered scores duration s p
  unfolding answer
  answer-Answered scores duration s p h = elim (Result-cases (env.complete req.prompt)) [
    | inr (e, c) ↦ absurd (ground arith)
    | inl (clean_response, c) ↦
        elim (Result-cases
          (defend env t req (env.classify_tier scores duration) clean_response s)) [
            | inr (e, d) ↦ absurd (ground arith)
            | inl ((text, applied, session), d) ↦
                let e : p ≡ record {
                  session = session;
                  scores = scores;
                  duration_mins = duration;
                  tier = env.classify_tier scores duration;
                  served_response = text;
                  noise_applied = applied;
                } =
                  ground arith in
                rw e (record {
                  clean_response = clean_response;
                  completed = c;
                  same_scores = refl;
                  same_duration = refl;
                  tier = refl;
                  defended = d;
                })
          ]
  ]

  -- A request that came through steps 3 to 9, from the session as step 2 left it.
  pub record Examined (recorded : Session F) (p : Prepared F) : Type 0 where
    pub embedding : List F
    pub intent : Bool × Option Text
    pub tracked : Session F
    pub clean_response : Text
    pub embedded : env.embed req.prompt ≡ ok embedding
    pub scoring : p.scores ≡ score env t req recorded embedding intent.0 intent.1
    pub tracking : start_tracking env t req p.scores recorded ≡ ok tracked
    pub duration : p.duration_mins ≡ tracking_duration_mins t.classified tracked
    pub tier : p.tier ≡ env.classify_tier p.scores p.duration_mins
    pub completed : env.complete req.prompt ≡ ok clean_response
    pub defended :
        defend env t req p.tier clean_response
          (classify env p.scores p.duration_mins embedding tracked)
        ≡ ok (p.served_response, p.noise_applied, p.session)

  pub examine-Examined :
      (s : Session F) (p : Prepared F) → examine env t req s ≡ ok p → Examined s p
  unfolding examine judge
  examine-Examined s p h = elim (Result-cases (env.embed req.prompt)) [
    | inr (e, c) ↦ absurd (ground arith)
    | inl (embedding, c) ↦
        elim (Result-cases
          (env.classify_intent req.prompt env.cfg.intent_labels env.cfg.intent_threshold)) [
            | inr (e, d) ↦ absurd (ground arith)
            | inl (intent, d) ↦ judged embedding intent c (rw (c, d) at h)
          ]
  ]
    where
      judged :
          (embedding : List F) (intent : Bool × Option Text)
          → env.embed req.prompt ≡ ok embedding
          → judge env t req (score env t req s embedding intent.0 intent.1) embedding s ≡ ok p
          → Examined s p
      judged embedding intent c k =
          let scores = score env t req s embedding intent.0 intent.1 in
          elim (Result-cases (start_tracking env t req scores s)) [
            | inr (e, d) ↦ absurd (ground arith)
            | inl (tracked, d) ↦
                let duration = tracking_duration_mins t.classified tracked in
                let a : Answered scores duration (classify env scores duration embedding tracked)
                    p =
                  answer-Answered scores duration (classify env scores duration embedding tracked) p
                    (rw d at k) in
                record {
                  embedding = embedding;
                  intent = intent;
                  tracked = tracked;
                  clean_response = a.clean_response;
                  embedded = c;
                  scoring = a.same_scores;
                  tracking = rw (a.same_scores) d;
                  duration = a.same_duration;
                  tier = rw (a.same_scores, a.same_duration) (a.tier);
                  completed = a.completed;
                  defended = rw (a.same_scores, a.same_duration) (a.defended);
                }
          ]

  -- What step 6 keeps, and when it sets the start of tracking.
  pub record Tracked (scores : RequestScores F) (s s' : Session F) : Type 0 where
    pub rest : s' ≡ record s { tracking_started_at = s'.tracking_started_at }
    pub kept :
        (start : DateTime)
        → s.tracking_started_at ≡ some start
        → s'.tracking_started_at ≡ some start
    pub quiet :
        f.lt env.cfg.tracking_threshold scores.hybrid ≡ false
        → s'.tracking_started_at ≡ s.tracking_started_at
    pub crossed :
        f.lt env.cfg.tracking_threshold scores.hybrid ≡ true
        → s.tracking_started_at ≡ none
        → s'.tracking_started_at ≡ some t.now

  pub start_tracking-Tracked :
      (scores : RequestScores F) (s s' : Session F)
      → start_tracking env t req scores s ≡ ok s'
      → Tracked scores s s'
  unfolding start_tracking
  start_tracking-Tracked scores s s' h = record {
    rest = ground arith;
    kept = λ start e. ground arith;
    quiet = λ e. ground arith;
    crossed = λ e e'. ground arith;
  }

  -- What step 9 does: a clean request gets the model's answer, any other one what the defence made
  -- of it by the session's seed; of the session only the seed may change.
  pub record Defended (tier : Tier) (clean_response : Text) (s : Session F) (served : Text)
      (applied : Bool) (s' : Session F) : Type 0 where
    pub rest : s' ≡ record s { noise_seed = s'.noise_seed }
    pub kept : (seed : Text) → s.noise_seed ≡ some seed → s'.noise_seed ≡ some seed
    pub untouched :
        tier ≡ clean
        → (served ≡ clean_response) × (applied ≡ false) × (s'.noise_seed ≡ s.noise_seed)
    pub perturbed :
        tier ≢ clean
        → (env.apply clean_response tier (seed_of env t req s) ≡ ok served)
          × (applied ≡ true)
          × (s'.noise_seed ≡ some (seed_of env t req s))

  perturb-Defended :
      (tier : Tier) (clean_response : Text) (s : Session F) (served : Text) (applied : Bool)
      (s' : Session F)
      → tier ≢ clean
      → perturb env t req tier clean_response s ≡ ok (served, applied, s')
      → Defended tier clean_response s served applied s'
  unfolding perturb seed_of
  perturb-Defended tier clean_response s served applied s' ne h =
      elim (Result-cases (env.apply clean_response tier (seed_of env t req s))) [
        | inr (e, c) ↦ absurd (ground arith)
        | inl (text, c) ↦ record {
          rest = ground arith;
          kept = λ seed e. ground arith;
          untouched = λ e. absurd (ne e);
          perturbed = λ _. ground arith;
        }
      ]

  pub defend-Defended :
      (tier : Tier) (clean_response : Text) (s : Session F) (served : Text) (applied : Bool)
      (s' : Session F)
      → defend env t req tier clean_response s ≡ ok (served, applied, s')
      → Defended tier clean_response s served applied s'
  unfolding defend
  defend-Defended clean clean_response s served applied s' h = record {
    rest = ground arith;
    kept = λ seed e. ground arith;
    untouched = λ e. ground arith;
    perturbed = λ ne. absurd (ne refl);
  }
  defend-Defended suspicious clean_response s served applied s' h =
      perturb-Defended suspicious clean_response s served applied s' (λ e. cc) h
  defend-Defended malicious clean_response s served applied s' h =
      perturb-Defended malicious clean_response s served applied s' (λ e. cc) h
