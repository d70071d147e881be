-- ===== src/Scoring/Anomaly/Global.antt =====
-- engine/src/scoring/anomaly.rs, `GLOBAL_MODEL` and the two public functions: the model behind a lock
-- that all requests share. A panic of a writer poisons an `RwLock`, one of a reader does not.
use vyse.Prelude.{
  ◌≡◌, refl, ap, ◌∙◌, Bool, false, Option, none, some, List, [], ◌∷◌, ◌++◌, if◌then◌else◌,
}
use vyse.Float.{Float, IsAbsorbing}
use vyse.Scoring.Anomaly.{FeatureVector, AnomalyModel}
use vyse.Scoring.Anomaly.Model
use vyse.Scoring.Anomaly.Poison.{AnyNan, features, score-poisoned, observe}

pub record Shared (D : Type 0) : Type 0 where
  pub model : AnomalyModel D
  pub is_poisoned : Bool

abbrev pub global_model : {D : Type 0} ⦃d : Float D⦄ → Shared D
global_model = record { model = Model.new; is_poisoned = false }

-- A call of one of the two functions. They run one after the other, or as readers at once.
pub data Call (F : Type 0) : Type 0 where
  scored : FeatureVector F → Call F
  updated : FeatureVector F → Call F

module _ {F D : Type 0} ⦃f : Float F⦄ ⦃d : Float D⦄ (widen : F → D) (narrow : D → F) where
  -- `none` is a panic, of the lock or of the model.
  unfoldable pub score : Shared D → FeatureVector F → Option F
  score s features = if s.is_poisoned then none else Model.score widen narrow s.model features

  unfoldable pub update : Shared D → FeatureVector F → Option (Shared D)
  update s features =
      if s.is_poisoned
      then none
      else some (record s { model = Model.update widen s.model features })

  -- The state after a call: a panic under the read lock leaves it, and the update cannot panic while
  -- it holds the write lock.
  abbrev pub after_call : Shared D → Call F → Shared D
  after_call s (scored features) = s
  after_call s (updated features) = elim (update s features) [ none ↦ s | some s' ↦ s' ]

  abbrev pub run_calls : Shared D → List (Call F) → Shared D
  run_calls s [] = s
  run_calls s (c ∷ calls) = run_calls (after_call s c) calls

  abbrev pub updates : List (Call F) → List (FeatureVector F)
  updates [] = []
  updates (scored v ∷ calls) = updates calls
  updates (updated v ∷ calls) = v ∷ updates calls

  run_calls-append :
      (before later : List (Call F)) (s : Shared D)
      → run_calls s (before ++ later) ≡ run_calls (run_calls s before) later
  run_calls-append [] later s = refl
  run_calls-append (c ∷ before) later s = run_calls-append before later (after_call s c)

  module _ (nans : IsAbsorbing D) where
    -- The lock is never poisoned, and the model depends on the updates alone.
    run_calls-observe :
        (calls : List (Call F)) (m : AnomalyModel D)
        → run_calls (record { model = m; is_poisoned = false }) calls
          ≡ record { model = observe nans widen narrow m (updates calls); is_poisoned = false }
    unfolding update
    run_calls-observe [] m = refl
    run_calls-observe (scored v ∷ calls) m = run_calls-observe calls m
    run_calls-observe (updated v ∷ calls) m = run_calls-observe calls (Model.update widen m v)

    -- However requests score and update the global model: once a NaN feature was observed, every
    -- later call of `score` panics, while `update` never does: a panic of `score` does not poison
    -- the lock, so that nothing resets the model.
    pub run_calls-poisoned :
        (before later : List (Call F)) (v w : FeatureVector F)
        → AnyNan (features nans widen narrow v)
        → (score (run_calls global_model (before ++ updated v ∷ later)) w ≡ none)
          × ((s : Shared D) × (update (run_calls global_model (before ++ updated v ∷ later)) w
                ≡ some s))
    unfolding score update
    run_calls-poisoned before later v w h =
        let m = observe nans widen narrow Model.new (updates before) in
        let first = run_calls-observe before Model.new in
        let rest = run_calls-observe later (Model.update widen m v) in
        let all : run_calls global_model (before ++ updated v ∷ later) ≡ record {
          model = observe nans widen narrow (Model.update widen m v) (updates later);
          is_poisoned = false;
        } =
          run_calls-append before (updated v ∷ later) global_model
          ∙ ap (λ s. run_calls s (updated v ∷ later)) first
          ∙ rest in
        rw all (score-poisoned nans widen narrow m v (updates later) w h, (_, refl))
