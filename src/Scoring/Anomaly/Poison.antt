-- ===== src/Scoring/Anomaly/Poison.antt =====
-- engine/src/scoring/anomaly.rs: a NaN feature that is observed once makes every later score panic.
use vyse.Prelude.{◌≡◌, refl, ◌⊎◌, inl, inr, none, some, List, [], ◌∷◌, arith, Option-cases, ◌≢◌}
use vyse.Float.{Float, IsNan, IsAbsorbing}
use vyse.Scoring.Anomaly.{FeatureVector, FeatureStats, AnomalyModel}
use vyse.Scoring.Anomaly.Stats
use vyse.Scoring.Anomaly.Sort.{insert, insert?, sort}
use vyse.Scoring.Anomaly.Model.{update, z_scores, score}

module _ {D : Type 0} ⦃d : Float D⦄ where
  abbrev pub AnyNan : List D → Type 0
  AnyNan [] = ⊥
  AnyNan (x ∷ xs) = IsNan x ⊎ AnyNan xs

  abbrev pub means : AnomalyModel D → List D
  means m =
      m.rpm.mean ∷ m.similarity.mean ∷ m.entropy_inv.mean ∷ m.prompt_len.mean ∷ m.duration_mins.mean
      ∷ []

  insert-nonempty : (x : D) (ys out : List D) → insert x ys ≡ some out → out ≢ []
  unfolding insert
  insert-nonempty x [] out h e = cc
  insert-nonempty x (y ∷ ys) out h e = ground (arith, Option-cases (insert x ys))

  insert-nan : (x y : D) (ys : List D) → IsNan x ⊎ IsNan y → insert x (y ∷ ys) ≡ none
  unfolding insert
  insert-nan x y ys (inl n) = ground arith
  insert-nan x y ys (inr n) = ground arith

  sort-nonempty : (x : D) (xs out : List D) → sort (x ∷ xs) ≡ some out → out ≢ []
  unfolding sort
  sort-nonempty x xs out h = elim (Option-cases (sort xs)) [
    | inl panic ↦ absurd (ground arith)
    | inr (ys, e) ↦ insert-nonempty x ys out (rw e at h)
  ]

  insert?-nan : (x y : D) (xs : List D) → IsNan x → insert? x (sort (y ∷ xs)) ≡ none
  insert?-nan x y xs n = elim (Option-cases (sort (y ∷ xs))) [
    | inl panic ↦ rw panic
    | inr ([], e) ↦ absurd (sort-nonempty y xs [] e refl)
    | inr (z ∷ zs, e) ↦ rw e (insert-nan x z zs (inl n))
  ]

  sort-none : (x : D) (xs : List D) → sort xs ≡ none → sort (x ∷ xs) ≡ none
  unfolding sort
  sort-none x xs e = rw e

  -- Two or more values with a NaN among them cannot be sorted.
  sort-nan : (x y : D) (xs : List D) → AnyNan (x ∷ y ∷ xs) → sort (x ∷ y ∷ xs) ≡ none
  sort-nan x y xs (inl n) = unfold sort in insert?-nan x y xs n
  sort-nan x y [] (inr (inl n)) = unfold sort insert in insert-nan x y [] (inr n)
  sort-nan x y [] (inr (inr n)) = absurd n
  sort-nan x y (z ∷ zs) (inr n) = sort-none x (y ∷ z ∷ zs) (sort-nan y z zs n)

module _ {D : Type 0} ⦃d : Float D⦄ (nans : IsAbsorbing D) where
  z_score-IsNan : (s : FeatureStats D) (x : D) → IsNan s.mean → IsNan (Stats.z_score s x)
  unfolding Stats.z_score
  z_score-IsNan s x n = nans.div_nan _ _ (nans.abs_nan _ (nans.sub_nan_right x s.mean n))

  update-IsNan :
      (s : FeatureStats D) (x : D) → IsNan s.mean ⊎ IsNan x → IsNan (Stats.update s x).mean
  unfolding Stats.update
  update-IsNan s x (inl n) = nans.add_nan _ _ n
  update-IsNan s x (inr n) = nans.add_nan_right _ _ (nans.div_nan _ _ (nans.sub_nan_left _ _ n))

module _ {F D : Type 0} ⦃f : Float F⦄ ⦃d : Float D⦄ (nans : IsAbsorbing D) (widen : F → D)
    (narrow : D → F) where
  abbrev pub features : FeatureVector F → List D
  features v =
      widen v.rpm
      ∷ widen v.similarity
      ∷ widen v.entropy_inv
      ∷ widen v.prompt_len
      ∷ widen v.duration_mins
      ∷ []

  means-update :
      (m : AnomalyModel D) (v : FeatureVector F)
      → AnyNan (means m) ⊎ AnyNan (features v)
      → AnyNan (means (update widen m v))
  unfolding update
  means-update m v h = ground (
    arith,
    update-IsNan nans m.rpm (widen v.rpm),
    update-IsNan nans m.similarity (widen v.similarity),
    update-IsNan nans m.entropy_inv (widen v.entropy_inv),
    update-IsNan nans m.prompt_len (widen v.prompt_len),
    update-IsNan nans m.duration_mins (widen v.duration_mins),
  )

  z_scores-nan :
      (m : AnomalyModel D) (v : FeatureVector F) → AnyNan (means m) → AnyNan (z_scores widen m v)
  unfolding z_scores
  z_scores-nan m v h = ground (
    arith,
    z_score-IsNan nans m.rpm (widen v.rpm),
    z_score-IsNan nans m.similarity (widen v.similarity),
    z_score-IsNan nans m.entropy_inv (widen v.entropy_inv),
    z_score-IsNan nans m.prompt_len (widen v.prompt_len),
    z_score-IsNan nans m.duration_mins (widen v.duration_mins),
  )

  score-nan :
      (m : AnomalyModel D) (v : FeatureVector F)
      → AnyNan (z_scores widen m v)
      → score widen narrow m v ≡ none
  unfolding score z_scores
  score-nan m v h = rw (sort-nan _ _ _ h)

  -- The global model after the observations of several requests.
  abbrev pub observe : AnomalyModel D → List (FeatureVector F) → AnomalyModel D
  observe m [] = m
  observe m (v ∷ vs) = observe (update widen m v) vs

  means-observe :
      (vs : List (FeatureVector F)) (m : AnomalyModel D)
      → AnyNan (means m)
      → AnyNan (means (observe m vs))
  means-observe [] m h = h
  means-observe (v ∷ vs) m h = means-observe vs (update widen m v) (means-update m v (inl h))

  -- One observation with a NaN among its five features poisons the global model: whatever is
  -- observed after it, every later call of `score` panics.
  pub score-poisoned :
      (m : AnomalyModel D) (v : FeatureVector F) (later : List (FeatureVector F))
      (w : FeatureVector F)
      → AnyNan (features v)
      → score widen narrow (observe (update widen m v) later) w ≡ none
  score-poisoned m v later w h =
      score-nan _ w (z_scores-nan _ w (means-observe later _ (means-update m v (inr h))))
