-- ===== src/Defence/Numeric/Factor.antt =====
-- engine/src/defence/numeric.rs, `perturbation_factor`: the range of the factor.
use vyse.Prelude.{ℕ, ◌-◌, ◌^◌, ◌≤◌, ◌<◌, ◌≡◌, true, arith}
use vyse.Float.{Float, IsNum, ◌≼◌, zero_f, one_f}
use vyse.Defence.Numeric.{perturbation_factor, high_bits, lcg}
use vyse.Prelude.Int.{pos}

module _ {D : Type 0} ⦃d : Float D⦄ where
  -- Neither an infinity nor NaN, whose differences with themselves are NaN.
  abbrev pub IsFinite : D → Type 0
  IsFinite x = IsNum (d.sub x x)

  abbrev pub two_f : D
  two_f = d.lit 2 0

-- What IEEE 754 documents of the operations in the factor: they keep the order of finite operands,
-- and some of their results are exact.
pub record IsRounded (D : Type 0) ⦃d : Float D⦄ : Type 0 where
  pub of_nat_mono : (m n : ℕ) → m ≤ n → d.of_int (pos m) ≼ d.of_int (pos n)
  pub of_nat_zero : d.of_int (pos 0) ≡ zero_f
  pub of_nat_pos : (n : ℕ) → 1 ≤ n → d.lt zero_f (d.of_int (pos n)) ≡ true
  pub of_nat_finite : (n : ℕ) → n < 2 ^ 64 → IsFinite (d.of_int (pos n))
  pub one_finite : IsFinite {D = D} one_f
  pub two_finite : IsFinite {D = D} two_f
  pub zero_finite : IsFinite {D = D} zero_f
  pub neg_finite : (x : D) → IsFinite x → IsFinite (d.neg x)
  pub between_finite : (lo x hi : D) → lo ≼ x → x ≼ hi → IsFinite lo → IsFinite hi → IsFinite x
  pub two_nonneg : d.le zero_f two_f ≡ true
  pub div_unit :
      (x y : D)
      → zero_f ≼ x
      → x ≼ y
      → d.lt zero_f y ≡ true
      → IsFinite y
      → (zero_f ≼ d.div x y) × (d.div x y ≼ one_f)
  pub mul_comm : (x y : D) → d.mul x y ≡ d.mul y x
  pub mul_mono :
      (w x y : D)
      → zero_f ≼ w
      → x ≼ y
      → IsFinite w
      → IsFinite x
      → IsFinite y
      → d.mul w x ≼ d.mul w y
  pub add_mono : (c x y : D) → x ≼ y → IsFinite c → IsFinite x → IsFinite y → d.add c x ≼ d.add c y
  pub sub_mono : (c x y : D) → x ≼ y → IsFinite c → IsFinite x → IsFinite y → d.sub x c ≼ d.sub y c
  pub two-mul-zero : d.mul two_f zero_f ≡ zero_f
  pub mul-one : (w : D) → d.mul w one_f ≡ w
  pub mul-neg_one : (w : D) → d.mul w (d.neg one_f) ≡ d.neg w
  pub zero-sub-one : d.sub zero_f one_f ≡ d.neg one_f
  pub two-sub-one : d.sub two_f one_f ≡ one_f
  pub one-add-neg : (w : D) → d.add one_f (d.neg w) ≡ d.sub one_f w

module _ {D : Type 0} ⦃d : Float D⦄ (laws : IsRounded D) where
  open laws use {
    of_nat_mono, of_nat_zero, of_nat_pos, of_nat_finite, one_finite, two_finite, zero_finite,
    neg_finite, between_finite, mul_comm, mul_mono, add_mono, sub_mono,
  }

  -- the fraction of the upper half of the state
  fraction_unit :
      (h n : ℕ)
      → h ≤ n
      → 1 ≤ n
      → n < 2 ^ 64
      → (zero_f ≼ d.div (d.of_int (pos h)) (d.of_int (pos n)))
        × (d.div (d.of_int (pos h)) (d.of_int (pos n)) ≼ one_f)
  fraction_unit h n le some_n small =
      let low : zero_f ≼ d.of_int (pos h) = rw of_nat_zero at (of_nat_mono 0 h (omega arith)) in
      laws.div_unit (d.of_int (pos h)) (d.of_int (pos n)) low (of_nat_mono h n le)
        (of_nat_pos n some_n) (of_nat_finite n small)

  -- 2t - 1
  centred :
      (t : D)
      → zero_f ≼ t
      → t ≼ one_f
      → (d.neg one_f ≼ d.sub (d.mul two_f t) one_f) × (d.sub (d.mul two_f t) one_f ≼ one_f)
  centred t low high =
      let t_finite = between_finite zero_f t one_f low high zero_finite one_finite in
      let from : zero_f ≼ d.mul two_f t =
        rw laws.two-mul-zero at
          (mul_mono two_f zero_f t laws.two_nonneg low two_finite zero_finite t_finite) in
      let to : d.mul two_f t ≼ two_f =
        rw (laws.mul-one two_f) at
          (mul_mono two_f t one_f laws.two_nonneg high two_finite t_finite one_finite) in
      let finite = between_finite zero_f (d.mul two_f t) two_f from to zero_finite two_finite in
      (
        rw laws.zero-sub-one at
            (sub_mono one_f zero_f (d.mul two_f t) from one_finite zero_finite finite),
        rw laws.two-sub-one at
            (sub_mono one_f (d.mul two_f t) two_f to one_finite finite two_finite),
      )

  -- 1 + s · w, for s from -1 to 1
  scaled :
      (s w : D)
      → d.neg one_f ≼ s
      → s ≼ one_f
      → zero_f ≼ w
      → IsFinite w
      → (d.sub one_f w ≼ d.add one_f (d.mul s w)) × (d.add one_f (d.mul s w) ≼ d.add one_f w)
  scaled s w low high nonneg w_finite =
      let neg_one = neg_finite one_f one_finite in
      let s_finite = between_finite (d.neg one_f) s one_f low high neg_one one_finite in
      let from : d.neg w ≼ d.mul w s =
        rw (laws.mul-neg_one w) at
          (mul_mono w (d.neg one_f) s nonneg low w_finite neg_one s_finite) in
      let to : d.mul w s ≼ w =
        rw (laws.mul-one w) at (mul_mono w s one_f nonneg high w_finite s_finite one_finite) in
      let neg_w = neg_finite w w_finite in
      let finite = between_finite (d.neg w) (d.mul w s) w from to neg_w w_finite in
      rw (mul_comm s w) (
        rw (laws.one-add-neg w) at
            (add_mono one_f (d.neg w) (d.mul w s) from one_finite neg_w finite),
        add_mono one_f (d.mul w s) w to one_finite finite w_finite,
      )

  high_bits_le : (seed position : ℕ) → high_bits seed position ≤ 2 ^ 32 - 1
  unfolding high_bits lcg
  high_bits_le seed position = omega arith

  -- The factor lies between one less and one more than the fraction, at every position of every
  -- seed, if the fraction is a finite number that is not negative.
  pub perturbation_factor_range :
      {F : Type 0} ⦃f : Float F⦄ (widen : F → D) (seed position : ℕ) (fraction : F)
      → zero_f ≼ widen fraction
      → IsFinite (widen fraction)
      → (d.sub one_f (widen fraction) ≼ perturbation_factor widen seed position fraction)
        × (perturbation_factor widen seed position fraction ≼ d.add one_f (widen fraction))
  unfolding perturbation_factor
  perturbation_factor_range widen seed position fraction nonneg finite =
      let (low, high) =
        fraction_unit (high_bits seed position) (2 ^ 32 - 1) (high_bits_le seed position)
          (omega arith) (omega arith) in
      let (from, to) = centred _ low high in scaled _ (widen fraction) from to nonneg finite
