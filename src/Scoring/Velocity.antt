-- ===== src/Scoring/Velocity.antt =====
-- engine/src/scoring/velocity.rs: the V-Score. `now` is the reading of `Utc::now()`.
pub mod Window
use vyse.Prelude.{ℕ, Bool, List, [], ◌∷◌, map, filter, length, ltb, if◌then◌else◌}
use vyse.Prelude.Int.{ℤ, pos, leb_ℤ}
use vyse.Float.{Float, zero_f, one_f, clamp, max_f, sum_f}
use vyse.Clock.{DateTime, seconds, before, mins_since}

module _ {F : Type 0} ⦃f : Float F⦄ where
  -- `e^(-LAMBDA * age)`
  abbrev pub decay : F → F
  decay age = f.exp (f.mul (f.neg one_f) age)

  abbrev pub last : F → List F → F
  last x [] = x
  last x (y ∷ ys) = last y ys

  -- `(ages.first() - ages.last()).max(1.0 / 60.0)`; the list is not empty there
  unfoldable pub span_mins : List F → F
  span_mins [] = f.div one_f (f.lit 60 0)
  span_mins (x ∷ xs) = max_f (f.sub x (last x xs)) (f.div one_f (f.lit 60 0))

  -- the part behind the early returns: the weighted count by the span
  unfoldable pub decayed_rate : List F → F
  unfolding span_mins
  decayed_rate xs =
      if ltb (length xs) 2 then zero_f else f.div (sum_f (map decay xs)) (span_mins xs)

module _ {F : Type 0} ⦃f : Float F⦄ (now : DateTime) where
  -- `now - chrono::Duration::seconds((window_mins * 60.0) as i64)`
  unfoldable pub cutoff : F → ℤ
  cutoff window_mins = before now (seconds (f.to_int (f.mul window_mins (f.lit 60 0))))

  unfoldable pub in_window : F → DateTime → Bool
  in_window window_mins ts = leb_ℤ (cutoff window_mins) (pos ts)

  unfoldable pub ages : List DateTime → F → List F
  ages timestamps window_mins = map (mins_since now) (filter (in_window window_mins) timestamps)

  unfoldable pub weighted_rpm : List DateTime → F → F
  unfolding ages
  weighted_rpm timestamps window_mins =
      if ltb (length timestamps) 2 then zero_f else decayed_rate (ages timestamps window_mins)

  unfoldable pub compute : List DateTime → F → F → F
  compute timestamps window_mins max_rpm =
      let rpm = weighted_rpm timestamps window_mins in clamp (f.div rpm max_rpm) zero_f one_f
