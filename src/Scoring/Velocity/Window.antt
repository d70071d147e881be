-- ===== src/Scoring/Velocity/Window.antt =====
-- engine/src/scoring/velocity.rs: the sliding window and the range of the V-Score.
use vyse.Prelude.{
  ◌≤◌, ◌<◌, ◌≡◌, refl, ap, false, List, [], ◌∷◌, ◌++◌, map, filter, length, length-map, All, arith,
  ltb, ltb→lt, lt→ltb, Bool-cases, inl, inr, length-filter_le,
}
use vyse.Float.{Float, zero_f, IsScore, IsOrdered}
use vyse.Float.Clamp.{clamp-IsScore}
use vyse.Clock.{DateTime, mins_since}
use vyse.Scoring.Velocity.{in_window, ages, decayed_rate, weighted_rpm, compute}

module _ {F : Type 0} ⦃f : Float F⦄ (now : DateTime) where
  filter-old :
      (w : F) (old recent : List DateTime)
      → All (λ ts. in_window now w ts ≡ false) old
      → filter (in_window now w) (old ++ recent) ≡ filter (in_window now w) recent
  filter-old w [] recent h = refl
  filter-old w (x ∷ old) recent (h, hs) = rw (h, filter) (filter-old w old recent hs)

  length-ages_le :
      (timestamps : List DateTime) (w : F) → length (ages now timestamps w) ≤ length timestamps
  unfolding ages
  length-ages_le timestamps w = omega (
    arith,
    length-map (mins_since now) (filter (in_window now w) timestamps),
    length-filter_le (in_window now w) timestamps,
  )

  decayed_rate-few : (xs : List F) → length xs < 2 → decayed_rate xs ≡ zero_f
  unfolding decayed_rate
  decayed_rate-few xs h = rw (lt→ltb (length xs) 2 h)

  -- The first early return is the second one, made sooner.
  weighted_rpm-eq-decayed_rate :
      (timestamps : List DateTime) (w : F)
      → weighted_rpm now timestamps w ≡ decayed_rate (ages now timestamps w)
  weighted_rpm-eq-decayed_rate timestamps w = elim (Bool-cases (ltb (length timestamps) 2)) [
    | inl few ↦
        let small : length (ages now timestamps w) < 2 =
          omega (arith, length-ages_le timestamps w, ltb→lt (length timestamps) 2 few) in
        rw (decayed_rate-few (ages now timestamps w) small) (unfold weighted_rpm in rw few)
    | inr many ↦ unfold weighted_rpm in rw many
  ]

  -- Requests before the window have no influence on the rate, however many they are.
  pub weighted_rpm-append_old :
      (w : F) (old recent : List DateTime)
      → All (λ ts. in_window now w ts ≡ false) old
      → weighted_rpm now (old ++ recent) w ≡ weighted_rpm now recent w
  weighted_rpm-append_old w old recent h =
      rw (weighted_rpm-eq-decayed_rate (old ++ recent) w, weighted_rpm-eq-decayed_rate recent w)
        (ap decayed_rate (unfold ages in ap (map (mins_since now)) (filter-old w old recent h)))

  -- The V-Score lies in the unit interval, or is NaN.
  pub velocity-IsScore :
      (laws : IsOrdered F) (timestamps : List DateTime) (w max_rpm : F)
      → IsScore (compute now timestamps w max_rpm)
  unfolding compute
  velocity-IsScore laws timestamps w max_rpm =
      clamp-IsScore laws (f.div (weighted_rpm now timestamps w) max_rpm)
