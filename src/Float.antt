-- ===== src/Float.antt =====
-- What the engine uses of `f32` and `f64`. The arithmetic is the processor's, so it is a parameter:
-- a record of operations, with the laws of IEEE 754 that a theorem needs as hypotheses beside it.
-- The functions of Rust's `core` that are made of comparisons (`clamp`, `max`) are defined here.
pub mod Clamp
pub mod Milli
use vyse.Prelude.{ℕ, ◌≡◌, ◌⊎◌, Bool, true, false, not, List, [], ◌∷◌, if◌then◌else◌}
use vyse.Prelude.Int.{ℤ, pos}

pub record Float (F : Type 0) : Type 0 where
  -- `<` and `<=`, false where an operand is NaN
  pub lt : F → F → Bool
  pub le : F → F → Bool
  pub add : F → F → F
  pub sub : F → F → F
  pub mul : F → F → F
  pub div : F → F → F
  pub neg : F → F
  pub abs : F → F
  pub sqrt : F → F
  pub exp : F → F
  pub log2 : F → F
  pub ceil : F → F
  -- the literal with digits `n` and `k` places behind the point
  pub lit : ℕ → ℕ → F
  pub epsilon : F
  -- the `as` casts from and to integers
  pub of_int : ℤ → F
  pub to_int : F → ℤ

module _ {F : Type 0} ⦃f : Float F⦄ where
  abbrev pub zero_f : F
  zero_f = f.lit 0 0

  abbrev pub one_f : F
  one_f = f.lit 1 0

  abbrev pub of_nat : ℕ → F
  of_nat n = f.of_int (pos n)

  -- NaN is the value that is not `<=` itself.
  abbrev pub is_nan : F → Bool
  is_nan x = not (f.le x x)

  abbrev pub IsNan : F → Type 0
  IsNan x = f.le x x ≡ false

  abbrev pub IsNum : F → Type 0
  IsNum x = f.le x x ≡ true

  infix 4 ◌≼◌
  abbrev pub ◌≼◌ : F → F → Type 0
  x ≼ y = f.le x y ≡ true

  -- What every signal promises of its value: it lies in the unit interval, unless it is NaN.
  abbrev pub IsScore : F → Type 0
  IsScore x = IsNan x ⊎ ((zero_f ≼ x) × (x ≼ one_f))

  -- `x.clamp(lo, hi)`, for `lo <= hi`; NaN stays NaN.
  abbrev pub clamp : F → F → F → F
  clamp x lo hi = if f.lt x lo then lo else if f.lt hi x then hi else x

  -- `x.max(y)`; a NaN operand yields the other one.
  abbrev pub max_f : F → F → F
  max_f x y = if f.lt x y then y else if is_nan x then y else x

  -- `iter.sum()`, from the left.
  abbrev pub sum_from : F → List F → F
  sum_from acc [] = acc
  sum_from acc (x ∷ xs) = sum_from (f.add acc x) xs

  abbrev pub sum_f : List F → F
  sum_f xs = sum_from zero_f xs

-- The order of IEEE 754: total away from NaN, and false at NaN.
pub record IsOrdered (F : Type 0) ⦃f : Float F⦄ : Type 0 where
  pub num_of_le : (x y : F) → x ≼ y → IsNum x × IsNum y
  pub num_of_lt : (x y : F) → f.lt x y ≡ true → IsNum x × IsNum y
  pub le_trans : (x y z : F) → x ≼ y → y ≼ z → x ≼ z
  pub lt-eq-not-le : (x y : F) → IsNum x → IsNum y → f.lt x y ≡ not (f.le y x)
  pub le_total : (x y : F) → IsNum x → IsNum y → (x ≼ y) ⊎ (y ≼ x)
  pub lit_num : (n k : ℕ) → IsNum (f.lit n k)
  pub zero-le-one : f.le (f.lit 0 0) (f.lit 1 0) ≡ true

-- Rounded sums and products keep the order, where they are numbers.
pub record IsMonotone (F : Type 0) ⦃f : Float F⦄ : Type 0 where
  pub add_mono :
      (a b c d : F) → a ≼ b → c ≼ d → IsNum (f.add a c) → IsNum (f.add b d) → f.add a c ≼ f.add b d
  pub mul_mono :
      (w x y : F)
      → zero_f ≼ w
      → x ≼ y
      → IsNum (f.mul w x)
      → IsNum (f.mul w y)
      → f.mul w x ≼ f.mul w y
  -- 1.0 - x, for x in the unit interval
  pub one_sub :
      (x : F) → zero_f ≼ x → x ≼ one_f → (zero_f ≼ f.sub one_f x) × (f.sub one_f x ≼ one_f)

-- An operation with a NaN operand yields NaN.
pub record IsAbsorbing (F : Type 0) ⦃f : Float F⦄ : Type 0 where
  pub add_nan : (x y : F) → IsNan x → IsNan (f.add x y)
  pub sub_nan_left : (x y : F) → IsNan x → IsNan (f.sub x y)
  pub sub_nan_right : (x y : F) → IsNan y → IsNan (f.sub x y)
  pub add_nan_right : (x y : F) → IsNan y → IsNan (f.add x y)
  pub mul_nan_right : (x y : F) → IsNan y → IsNan (f.mul x y)
  pub div_nan : (x y : F) → IsNan x → IsNan (f.div x y)
  pub abs_nan : (x : F) → IsNan x → IsNan (f.abs x)
  pub lt_nan_left : (x y : F) → IsNan x → f.lt x y ≡ false
  pub lt_nan_right : (x y : F) → IsNan y → f.lt x y ≡ false
  pub le_nan_left : (x y : F) → IsNan x → f.le x y ≡ false
  pub le_nan_right : (x y : F) → IsNan y → f.le x y ≡ false
