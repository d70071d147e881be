-- ===== src/Defence/FactorTests.antt =====
-- The factor of engine/src/defence/numeric.rs on thousandths.
use vyse.Prelude.{ℕ, suc, ◌*◌, ◌/◌, ◌≤◌, ◌≡◌, refl, ap, true, codes, arith}
use vyse.Prelude.Int.{pos, negsuc}
use vyse.Float.{◌≼◌, zero_f, one_f}
use vyse.Float.Milli.{Milli, milli, nan, num, milli-IsMonotone, milli-mul_comm}
use vyse.Defence.Numeric.{perturbation_factor, seed_to_u64}
use vyse.Defence.Numeric.Factor.{IsFinite, IsRounded, perturbation_factor_range}

mul_num : (x y : Milli) → IsFinite x → IsFinite y → milli.le (milli.mul x y) (milli.mul x y) ≡ true
mul_num nan y h k = ground arith
mul_num (num a) nan h k = ground arith
mul_num (num (pos a)) (num (pos b)) h k = ground arith
mul_num (num (pos a)) (num (negsuc b)) h k = ground arith
mul_num (num (negsuc a)) (num (pos b)) h k = ground arith
mul_num (num (negsuc a)) (num (negsuc b)) h k = ground arith

quotient_le : (a b : ℕ) → a ≤ suc b → a * 1000 / suc b ≤ 1000
quotient_le a b h = grind arith

div_unit :
    (x y : Milli)
    → zero_f ≼ x
    → x ≼ y
    → milli.lt zero_f y ≡ true
    → IsFinite y
    → (zero_f ≼ milli.div x y) × (milli.div x y ≼ one_f)
div_unit (num (pos a)) (num (pos (suc b))) low le positive h =
    let small : a ≤ suc b = ground arith in ground (arith, quotient_le a b small)
div_unit x y low le positive h = ground arith

mul-one : (w : Milli) → milli.mul w one_f ≡ w
mul-one nan = refl
mul-one (num (pos a)) = let e : a * 1000 / 1000 ≡ a = omega arith in ap (λ n. num (pos n)) e
mul-one (num (negsuc a)) = ground arith

mul-neg_one : (w : Milli) → milli.mul w (milli.neg one_f) ≡ milli.neg w
mul-neg_one nan = refl
mul-neg_one (num (pos a)) = ground arith
mul-neg_one (num (negsuc a)) = ground arith

rounded : IsRounded Milli
rounded = record {
  of_nat_mono = λ m n h. ground arith;
  of_nat_zero = refl;
  of_nat_pos = λ n h. ground arith;
  of_nat_finite = λ n h. ground arith;
  one_finite = refl;
  two_finite = refl;
  zero_finite = refl;
  neg_finite = λ x h. ground arith;
  between_finite = λ lo x hi l r h k. ground arith;
  two_nonneg = refl;
  div_unit = div_unit;
  mul_comm = milli-mul_comm;
  mul_mono = λ w x y nonneg le hw hx hy.
      milli-IsMonotone.mul_mono w x y nonneg le (mul_num w x hw hx) (mul_num w y hw hy);
  add_mono = λ c x y le hc hx hy. ground arith;
  sub_mono = λ c x y le hc hx hy. ground arith;
  two-mul-zero = refl;
  mul-one = mul-one;
  mul-neg_one = mul-neg_one;
  zero-sub-one = refl;
  two-sub-one = refl;
  one-add-neg = λ w. ground arith;
}

abbrev same : Milli → Milli
same x = x

perturbation_factor_range_example :
    let seed = seed_to_u64 (codes "deadbeef01") in
    (milli.sub one_f (milli.lit 5 2) ≼ perturbation_factor same seed 7 (milli.lit 5 2))
    × (perturbation_factor same seed 7 (milli.lit 5 2) ≼ milli.add one_f (milli.lit 5 2))
perturbation_factor_range_example =
    perturbation_factor_range rounded same (seed_to_u64 (codes "deadbeef01")) 7 (milli.lit 5 2) refl
      refl
