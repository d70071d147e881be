-- ===== src/Defence/Sample.antt =====
-- engine/src/defence: concrete draws, texts and matches that the examples run on.
use vyse.Prelude.{
  ℕ, zero, suc, ◌+◌, ◌*◌, ◌-◌, none, ◌%◌, ◌≡◌, Bool-cases, inl, inr, refl, sym, ap, ◌∙◌, Bool, true,
  ◌||◌, ◌&&◌, ◌==◌, some, List, [], ◌∷◌, ◌++◌, map, Text, codes, length, get_elem?, leb, arith,
  if◌then◌else◌,
}
use mathlib.Core.List.{append_assoc, append-nil}
use mathlib.Core.List.Permᴰ
use vyse.Prelude.Int.{pos, pos_part}
use vyse.Float.Milli.{Milli}
use vyse.Words.{Unicode, utf8_width, byte_len}
use vyse.Defence.Random.{Rng, IsInRange, RngLaws}
use vyse.Defence.Numeric.{Regex, Numerals, rebuild}
use vyse.Defence.Numeric.Shifts.{IsExact, IsPlaced}
use vyse.Defence.Pipeline.{Tools}

-- A generator that counts.
abbrev pub counter : Rng ℕ
counter = record {
  gen_range = λ g i. (g % (i + 1), g + 1);
  shuffle = λ g xs. (xs, g + 1);
  choose = λ g xs. (get_elem? xs 0, g + 1);
}

pub counter-IsInRange : IsInRange counter
counter-IsInRange g i = omega arith

pub counter_laws : RngLaws counter
counter_laws = record {
  in_range = counter-IsInRange;
  shuffle_perm = λ g xs. Permᴰ.refl xs;
  choose_some = λ g x xs. (0, x, refl, refl);
}

abbrev is_upper : ℕ → Bool
is_upper c = leb 0x41 c && leb c 0x5a

abbrev is_lower : ℕ → Bool
is_lower c = leb 0x61 c && leb c 0x7a

abbrev pub ascii : Unicode
ascii = record {
  is_whitespace = λ c. c == 0x20;
  is_alphabetic = λ c. is_upper c || is_lower c;
  is_uppercase = is_upper;
  to_lowercase = map (λ c. if is_upper c then c + 0x20 else c);
  trim = λ t. t;
}

-- Each digit is a match.
pub find_digits : ℕ → Text → Text → List (Text × ℕ × Text) × Text
find_digits start gap [] = ([], gap)
find_digits start gap (c ∷ cs) =
    let next = find_digits (start + utf8_width c) (gap ++ c ∷ []) cs in
    let more = find_digits (start + utf8_width c) [] cs in
    if leb 0x30 c && leb c 0x39 then ((gap, start, c ∷ []) ∷ more.0, more.1) else next

abbrev pub digits : Regex (Unit {0})
digits = record { new = λ pattern. some tt; find_all = λ re text. find_digits 0 [] text }

find_digits-exact :
    (start : ℕ) (gap text : Text)
    → rebuild (λ at matched. matched) (find_digits start gap text).0 (find_digits start gap text).1
      ≡ gap ++ text
unfolding find_digits rebuild
find_digits-exact start gap [] = sym (append-nil gap)
find_digits-exact start gap (c ∷ cs) = elim (Bool-cases (leb 0x30 c && leb c 0x39)) [
  | inl digit ↦ rw digit (ap (λ t. gap ++ c ∷ t) (find_digits-exact (start + utf8_width c) [] cs))
  | inr other ↦
      rw other
        (find_digits-exact (start + utf8_width c) (gap ++ c ∷ []) cs ∙ append_assoc gap (c ∷ []) cs)
]

pub digits-IsExact : IsExact digits
digits-IsExact re text = find_digits-exact 0 [] text

byte_len-append : (s t : Text) → byte_len (s ++ t) ≡ byte_len s + byte_len t
unfolding byte_len
byte_len-append [] t = omega arith
byte_len-append (c ∷ s) t = omega (arith, byte_len-append s t)

find_digits-IsPlaced :
    (start : ℕ) (gap text : Text) (at : ℕ)
    → start ≡ at + byte_len gap
    → IsPlaced at (find_digits start gap text).0
unfolding find_digits byte_len
find_digits-IsPlaced start gap [] at here = tt
find_digits-IsPlaced start gap (c ∷ cs) at here = elim (Bool-cases (leb 0x30 c && leb c 0x39)) [
  | inl digit ↦ rw digit (
    here,
    find_digits-IsPlaced (start + utf8_width c) [] cs (start + (utf8_width c + 0)) (omega arith),
  )
  | inr other ↦
      let longer = byte_len-append gap (c ∷ []) in
      rw other (
        find_digits-IsPlaced (start + utf8_width c) (gap ++ c ∷ []) cs at
          (omega (arith, here, longer)))
]

pub digits-IsPlaced : (re : Unit {0}) (text : Text) → IsPlaced 0 (digits.find_all re text).0
unfolding byte_len
digits-IsPlaced re text = find_digits-IsPlaced 0 [] text 0 (omega arith)

-- A number is read from its digits, and printed as so many strokes.
abbrev digit_value : Text → ℕ
digit_value [] = 0
digit_value (c ∷ text) = (c - 0x30) * 10 + digit_value text

abbrev strokes : ℕ → Text
strokes zero = []
strokes (suc n) = 0x7c ∷ strokes n

abbrev pub numerals : Numerals Milli
numerals = record {
  parse_f64 = λ text. none;
  parse_i64 = λ text. some (pos (digit_value text));
  round = λ x. x;
  show_fixed = λ x prec. codes "0.0";
  show_i64 = λ n. strokes (pos_part n);
}

-- The bytes of the key, which are made to be 8 at least.
abbrev pub tools : Tools Milli ℕ
tools = record {
  rng = counter;
  unicode = ascii;
  seed_from_u64 = λ n. n;
  hmac_sha256 = λ key message. 1 ∷ 2 ∷ 3 ∷ 4 ∷ 5 ∷ 6 ∷ 7 ∷ (length key % 256) ∷ [];
  show_i64 = λ n. strokes (pos_part n);
  show_2 = λ x. codes "0.50";
  perturb = λ text fraction g. some (text ++ codes " 7", true, g);
}
