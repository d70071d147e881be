-- ===== src/Scoring/Anomaly/Sort.antt =====
-- engine/src/scoring/anomaly.rs: `sort_by(|a, b| a.partial_cmp(b).unwrap())`, with its panic.
use vyse.Prelude.{Bool, true, false, ◌||◌, Option, none, some, List, [], ◌∷◌, if◌then◌else◌}
use vyse.Float.{Float, is_nan}

-- `a.partial_cmp(&b).unwrap()` panics where a value is NaN; else it says whether `a <= b`.
module _ {D : Type 0} ⦃d : Float D⦄ where
  abbrev pub partial_le : D → D → Option Bool
  partial_le a b = if is_nan a || is_nan b then none else some (d.le a b)

  abbrev pub cons? : D → Option (List D) → Option (List D)
  cons? x none = none
  cons? x (some xs) = some (x ∷ xs)

  -- one step of the insertion sort that `sort_by` makes of so short an array
  unfoldable pub insert : D → List D → Option (List D)
  insert x [] = some (x ∷ [])
  insert x (y ∷ ys) =
      let rest = cons? y (insert x ys) in
      elim (partial_le x y) [ none ↦ none | some true ↦ some (x ∷ y ∷ ys) | some false ↦ rest ]

  abbrev pub insert? : D → Option (List D) → Option (List D)
  insert? x none = none
  insert? x (some xs) = insert x xs

  -- `sort_by(|a, b| a.partial_cmp(b).unwrap())`; `none` is the panic
  unfoldable pub sort : List D → Option (List D)
  sort [] = some []
  sort (x ∷ xs) = insert? x (sort xs)
