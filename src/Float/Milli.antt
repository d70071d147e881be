-- ===== src/Float/Milli.antt =====
-- A concrete number type that meets the laws: whole thousandths, with a NaN. Sums are exact, and
-- products and quotients are rounded towards zero; `exp`, `log2` and `sqrt` are coarse stand-ins,
-- rational functions with the sign and the order of the real ones.
use native.Mathlib.Nat.{mul_comm}
use vyse.Prelude.{
  ℕ, suc, ◌+◌, ◌*◌, ◌/◌, ◌^◌, ◌≤◌, ◌≡◌, refl, Bool, true, false, arith, ◌==◌, if◌then◌else◌,
}
use vyse.Prelude.Int.{ℤ, pos, negsuc, sub_ℕ, leb_ℤ, ltb_ℤ, div_ℤ, ◌+ℤ◌, ◌-ℤ◌}
use vyse.Float.{Float, IsOrdered, IsMonotone, IsAbsorbing}

pub data Milli : Type 0 where
  nan : Milli
  num : ℤ → Milli

abbrev compare_by : (ℤ → ℤ → Bool) → Milli → Milli → Bool
compare_by p (num a) (num b) = p a b
compare_by p _ _ = false

abbrev lift_2 : (ℤ → ℤ → Milli) → Milli → Milli → Milli
lift_2 g (num a) (num b) = g a b
lift_2 g _ _ = nan

abbrev lift_1 : (ℤ → Milli) → Milli → Milli
lift_1 g (num a) = g a
lift_1 g nan = nan

-- minus `n`
abbrev minus : ℕ → ℤ
minus n = sub_ℕ 0 n

abbrev mul_z : ℤ → ℤ → ℤ
mul_z (pos a) (pos b) = pos (a * b / 1000)
mul_z (pos a) (negsuc b) = minus (a * suc b / 1000)
mul_z (negsuc a) (pos b) = minus (suc a * b / 1000)
mul_z (negsuc a) (negsuc b) = pos (suc a * suc b / 1000)

abbrev div_z : ℤ → ℤ → Milli
div_z a (pos b) = if b == 0 then nan else num (quot a b)
  where
    quot : ℤ → ℕ → ℤ
    quot (pos n) d = pos (n * 1000 / d)
    quot (negsuc n) d = minus (suc n * 1000 / d)
div_z (pos a) (negsuc b) = num (minus (a * 1000 / suc b))
div_z (negsuc a) (negsuc b) = num (pos (suc a * 1000 / suc b))

abbrev exp_z : ℤ → ℤ
exp_z (pos n) = pos (1000 + n)
exp_z (negsuc n) = pos (1000000 / (1001 + n))

abbrev log2_z : ℤ → Milli
log2_z (pos n) = num (pos n -ℤ pos 1000)
log2_z (negsuc n) = nan

abbrev sqrt_z : ℤ → Milli
sqrt_z (pos n) = num (pos ((n + 1000) / 2))
sqrt_z (negsuc n) = nan

abbrev abs_z : ℤ → ℤ
abs_z (pos n) = pos n
abs_z (negsuc n) = pos (suc n)

abbrev ceil_z : ℤ → ℤ
ceil_z (pos n) = pos ((n + 999) / 1000 * 1000)
ceil_z (negsuc n) = minus (suc n / 1000 * 1000)

abbrev scale : ℤ → ℤ
scale (pos n) = pos (n * 1000)
scale (negsuc n) = minus (suc n * 1000)

abbrev trunc : Milli → ℤ
trunc nan = pos 0
trunc (num a) = div_ℤ a 1000

instance abbrev pub milli : Float Milli
milli = record {
  lt = compare_by ltb_ℤ;
  le = compare_by leb_ℤ;
  add = lift_2 (λ a b. num (a +ℤ b));
  sub = lift_2 (λ a b. num (a -ℤ b));
  mul = lift_2 (λ a b. num (mul_z a b));
  div = lift_2 div_z;
  neg = lift_1 (λ a. num (pos 0 -ℤ a));
  abs = lift_1 (λ a. num (abs_z a));
  sqrt = lift_1 sqrt_z;
  exp = lift_1 (λ a. num (exp_z a));
  log2 = lift_1 log2_z;
  ceil = lift_1 (λ a. num (ceil_z a));
  lit = λ n k. num (pos (n * 1000 / 10 ^ k));
  epsilon = num (pos 1);
  of_int = λ a. num (scale a);
  to_int = trunc;
}

num_of_le : (x y : Milli) → milli.le x y ≡ true → (milli.le x x ≡ true) × (milli.le y y ≡ true)
num_of_le nan nan h = ground arith
num_of_le nan (num b) h = ground arith
num_of_le (num a) nan h = ground arith
num_of_le (num a) (num b) h = ground arith

num_of_lt : (x y : Milli) → milli.lt x y ≡ true → (milli.le x x ≡ true) × (milli.le y y ≡ true)
num_of_lt nan nan h = ground arith
num_of_lt nan (num b) h = ground arith
num_of_lt (num a) nan h = ground arith
num_of_lt (num a) (num b) h = ground arith

pub milli-IsOrdered : IsOrdered Milli
milli-IsOrdered = record {
  num_of_le = num_of_le;
  num_of_lt = num_of_lt;
  le_trans = λ x y z h k. ground arith;
  lt-eq-not-le = λ x y h k. ground arith;
  le_total = λ x y h k. ground arith;
  lit_num = λ n k. ground arith;
  zero-le-one = refl;
}

div_mono : (a b : ℕ) → a ≤ b → a / 1000 ≤ b / 1000
div_mono a b h = omega arith

mul_mono :
    (w x y : Milli)
    → milli.le (milli.lit 0 0) w ≡ true
    → milli.le x y ≡ true
    → milli.le (milli.mul w x) (milli.mul w x) ≡ true
    → milli.le (milli.mul w y) (milli.mul w y) ≡ true
    → milli.le (milli.mul w x) (milli.mul w y) ≡ true
mul_mono (num (pos w)) (num (pos a)) (num (pos b)) p h _ _ =
    let ab : a ≤ b = ground arith in
    let m : w * a ≤ w * b = grind arith in ground (arith, div_mono (w * a) (w * b) m)
mul_mono (num (pos w)) (num (negsuc a)) (num (pos b)) p h _ _ = ground arith
mul_mono (num (pos w)) (num (negsuc a)) (num (negsuc b)) p h _ _ =
    let ba : b ≤ a = ground arith in
    let m : w * suc b ≤ w * suc a = grind arith in
    ground (arith, div_mono (w * suc b) (w * suc a) m)
mul_mono w x y p h _ _ = ground arith

pub milli-IsMonotone : IsMonotone Milli
milli-IsMonotone = record {
  add_mono = λ a b c d h k _ _. ground arith;
  mul_mono = mul_mono;
  one_sub = λ x h k. ground arith;
}

pub milli-mul_comm : (x y : Milli) → milli.mul x y ≡ milli.mul y x
milli-mul_comm (num (pos a)) (num (pos b)) = rw (mul_comm a b)
milli-mul_comm (num (pos a)) (num (negsuc b)) = rw (mul_comm a (suc b))
milli-mul_comm (num (negsuc a)) (num (pos b)) = rw (mul_comm (suc a) b)
milli-mul_comm (num (negsuc a)) (num (negsuc b)) = rw (mul_comm (suc a) (suc b))
milli-mul_comm (num (pos a)) nan = refl
milli-mul_comm (num (negsuc a)) nan = refl
milli-mul_comm nan (num y) = refl
milli-mul_comm nan nan = refl

pub milli-IsAbsorbing : IsAbsorbing Milli
milli-IsAbsorbing = record {
  add_nan = λ x y h. ground arith;
  sub_nan_left = λ x y h. ground arith;
  sub_nan_right = λ x y h. ground arith;
  add_nan_right = λ x y h. ground arith;
  mul_nan_right = λ x y h. ground arith;
  div_nan = λ x y h. ground arith;
  abs_nan = λ x h. ground arith;
  lt_nan_left = λ x y h. ground arith;
  lt_nan_right = λ x y h. ground arith;
  le_nan_left = λ x y h. ground arith;
  le_nan_right = λ x y h. ground arith;
}
