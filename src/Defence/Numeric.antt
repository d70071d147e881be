-- ===== src/Defence/Numeric.antt =====
-- engine/src/defence/numeric.rs: the factor by which a number is shifted, from the seed of the
-- session and the position of the number, and the text with its numbers shifted.
pub mod Seeds
pub mod Shifts
pub mod Factor
use vyse.Prelude.{
  min, Bool, true, false, Option, none, some, ◌++◌, ◌||◌, ◌==◌, Text, codes, is_empty,
  if◌then◌else◌, ℕ, zero, suc, ◌+◌, ◌*◌, ◌/◌, ◌-◌, ◌%◌, ◌^◌, List, [], ◌∷◌, take,
}
use vyse.Prelude.Int.{ℤ}
use vyse.Float.{Float, zero_f, one_f, of_nat}
use vyse.Words.{byte_len}
use vyse.Defence.Panics.{◌>>=◌}

abbrev pub wrapping_mul : ℕ → ℕ → ℕ
wrapping_mul a b = (a * b) % 2 ^ 64

abbrev pub wrapping_add : ℕ → ℕ → ℕ
wrapping_add a b = (a + b) % 2 ^ 64

-- `fold(acc, |acc, &b| acc.wrapping_mul(31).wrapping_add(b as u64))`
unfoldable pub fold_bytes : ℕ → List ℕ → ℕ
fold_bytes acc [] = acc
fold_bytes acc (b ∷ bytes) = fold_bytes (wrapping_add (wrapping_mul acc 31) b) bytes

-- of the bytes of the seed
unfoldable pub seed_to_u64 : List ℕ → ℕ
unfolding fold_bytes
seed_to_u64 bytes = fold_bytes 0 (take 8 bytes)

unfoldable pub mixed : ℕ → ℕ → ℕ
mixed seed position =
    wrapping_add (wrapping_mul seed 0x9e3779b97f4a7c15) (wrapping_mul position 0x6c62272e07bb0142)

unfoldable pub lcg : ℕ → ℕ → ℕ
unfolding mixed
lcg seed position =
    wrapping_add (wrapping_mul (mixed seed position) 6364136223846793005) 1442695040888963407

-- `lcg >> 32`
unfoldable pub high_bits : ℕ → ℕ → ℕ
unfolding lcg
high_bits seed position = lcg seed position / 2 ^ 32

module _ {F D : Type 0} ⦃f : Float F⦄ ⦃d : Float D⦄ (widen : F → D) where
  unfoldable pub perturbation_factor : ℕ → ℕ → F → D
  unfolding high_bits
  perturbation_factor seed position fraction =
      let t = d.div (of_nat (high_bits seed position)) (of_nat (2 ^ 32 - 1)) in
      d.add one_f (d.mul (d.sub (d.mul (d.lit 2 0) t) one_f) (widen fraction))

-- What `perturb` uses of the `regex` crate: `new` compiles a pattern, or refuses it, and `find_all`
-- gives the matches in order, each as the text before it since the last one, the byte where it
-- starts, and what group 1 has matched; then the text after the last one.
pub record Regex (Re : Type 0) : Type 0 where
  pub new : Text → Option Re
  pub find_all : Re → Text → List (Text × ℕ × Text) × Text

-- What it uses of the parsing, the rounding and the printing of numbers.
pub record Numerals (D : Type 0) : Type 0 where
  pub parse_f64 : Text → Option D
  pub parse_i64 : Text → Option ℤ
  pub round : D → D
  -- `{:.prec$}`
  pub show_fixed : D → ℕ → Text
  pub show_i64 : ℤ → Text

abbrev pub number_pattern : Text
number_pattern = codes "(?<![a-zA-Z])(-?\\d+(?:\\.\\d+)?)(?![a-zA-Z%])"

-- the text behind the first full stop
unfoldable pub after_dot : Text → Option Text
after_dot [] = none
after_dot (c ∷ text) = if c == 0x2e then some text else after_dot text

-- what `replace_all` makes of the matches
unfoldable pub rebuild : (ℕ → Text → Text) → List (Text × ℕ × Text) → Text → Text
rebuild change [] rest = rest
rebuild change ((gap, start, matched) ∷ found) rest =
    gap ++ (change start matched ++ rebuild change found rest)

module _ {F D : Type 0} ⦃f : Float F⦄ ⦃d : Float D⦄ (widen : F → D) (numerals : Numerals D) where
  abbrev pub shift_decimal : Text → D → Text → Text
  shift_decimal matched factor decimals = elim (numerals.parse_f64 matched) [
    | none ↦ matched
    | some val ↦ numerals.show_fixed (d.mul val factor) (min (byte_len decimals) 6)
  ]

  abbrev pub shift_integer : Text → D → Text
  shift_integer matched factor = elim (numerals.parse_i64 matched) [
    | none ↦ matched
    | some val ↦ numerals.show_i64 (d.to_int (numerals.round (d.mul (d.of_int val) factor)))
  ]

  -- the closure that `replace_all` calls, for a match that starts at byte `char_pos`
  unfoldable pub shifted : ℕ → F → ℕ → Text → Text
  unfolding perturbation_factor after_dot
  shifted seed_int fraction char_pos matched =
      let factor = perturbation_factor widen seed_int char_pos fraction in
      elim (after_dot matched) [
        | some decimals ↦ shift_decimal matched factor decimals
        | none ↦ shift_integer matched factor
      ]

  -- A pattern that the crate refuses is a panic of `unwrap`. The seed is given by its bytes.
  unfoldable pub perturb : {Re : Type 0} → Regex Re → Text → F → List ℕ → Option Text
  unfolding shifted rebuild seed_to_u64
  perturb regex text fraction seed = if f.le fraction zero_f || is_empty text then some text else do
    number_re ← regex.new number_pattern
    let found = regex.find_all number_re text
    some (rebuild (shifted (seed_to_u64 seed) fraction) found.0 found.1)
