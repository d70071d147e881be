-- ===== src/Float/Clamp.antt =====
-- The range of `clamp` and `max`.
use vyse.Prelude.{◌≡◌, true, false, arith, inl, inr, Bool-cases}
use vyse.Float.{
  Float, IsNum, IsNan, ◌≼◌, zero_f, one_f, clamp, max_f, IsOrdered, IsAbsorbing, IsScore,
}

module _ {F : Type 0} ⦃f : Float F⦄ (laws : IsOrdered F) where
  open laws use {num_of_le, le_total, lt-eq-not-le, lit_num, zero-le-one}

  pub le_of_not_lt : (x y : F) → IsNum x → IsNum y → f.lt x y ≡ false → y ≼ x
  le_of_not_lt x y nx ny h = ground (arith, lt-eq-not-le x y nx ny)

  pub le_of_lt : (x y : F) → IsNum x → IsNum y → f.lt x y ≡ true → x ≼ y
  le_of_lt x y nx ny h = ground (arith, lt-eq-not-le x y nx ny, le_total x y nx ny)

  pub lt_of_lt_of_le : (x y z : F) → f.lt x y ≡ true → y ≼ z → f.lt x z ≡ true
  lt_of_lt_of_le x y z h k =
      let (nx, ny) = laws.num_of_lt x y h in
      let (_, nz) = num_of_le y z k in
      ground (arith, lt-eq-not-le x y nx ny, lt-eq-not-le x z nx nz, laws.le_trans y z x k)

  pub clamp_range : (x lo hi : F) → lo ≼ hi → IsNum x → (lo ≼ clamp x lo hi) × (clamp x lo hi ≼ hi)
  clamp_range x lo hi h nx =
      let (nl, nh) = num_of_le lo hi h in
      ground (arith, le_of_not_lt x lo nx nl, le_of_not_lt hi x nh nx)

  -- The unit interval, to which every score is clamped.
  pub clamp_unit :
      (x : F) → IsNum x → (zero_f ≼ clamp x zero_f one_f) × (clamp x zero_f one_f ≼ one_f)
  clamp_unit x nx = clamp_range x zero_f one_f zero-le-one nx

  -- A number in the range is left alone.
  pub clamp_inside : (x lo hi : F) → lo ≼ x → x ≼ hi → clamp x lo hi ≡ x
  clamp_inside x lo hi hl hh =
      let (nl, nx) = num_of_le lo x hl in
      let (_, nh) = num_of_le x hi hh in
      ground (arith, lt-eq-not-le x lo nx nl, lt-eq-not-le hi x nh nx)

  pub clamp_num : (x lo hi : F) → lo ≼ hi → IsNum x → IsNum (clamp x lo hi)
  clamp_num x lo hi h nx = (num_of_le _ _ (clamp_range x lo hi h nx).1).0

  pub clamp_mono : (x y lo hi : F) → lo ≼ hi → x ≼ y → clamp x lo hi ≼ clamp y lo hi
  clamp_mono x y lo hi h e =
      let (nl, nh) = num_of_le lo hi h in
      let (nx, ny) = num_of_le x y e in
      ground (
        arith,
        lt-eq-not-le x lo nx nl,
        lt-eq-not-le hi x nh nx,
        lt-eq-not-le y lo ny nl,
        lt-eq-not-le hi y nh ny,
        laws.le_trans lo x y,
        laws.le_trans x y hi,
        le_total hi x nh nx,
        le_total x lo nx nl,
        le_total y lo ny nl,
        le_total hi y nh ny,
      )

  -- `max` with a number is a number, and no less than it.
  pub max_f-ge : (x lo : F) → IsNum lo → lo ≼ max_f x lo
  max_f-ge x lo nl = elim (Bool-cases (f.le x x)) [
    | inl nx ↦ ground (arith, le_of_not_lt x lo nx nl)
    | inr nan ↦ ground arith
  ]

  -- Clamping to the unit interval makes a score of any value.
  pub clamp-IsScore : (x : F) → IsScore (clamp x zero_f one_f)
  clamp-IsScore x = elim (Bool-cases (f.le x x)) [
    | inl nx ↦ inr (clamp_unit x nx)
    | inr nan ↦
        let kept : clamp x zero_f one_f ≡ x =
          ground (arith, laws.num_of_lt x zero_f, laws.num_of_lt one_f x) in
        inl (rw kept nan)
  ]

module _ {F : Type 0} ⦃f : Float F⦄ (laws : IsAbsorbing F) where
  open laws use {lt_nan_left, lt_nan_right}

  pub clamp_nan : (x lo hi : F) → IsNan x → clamp x lo hi ≡ x
  clamp_nan x lo hi h = rw (lt_nan_left x lo h, lt_nan_right hi x h)
