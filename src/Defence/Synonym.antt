-- ===== src/Defence/Synonym.antt =====
-- engine/src/defence/synonym.rs, `substitute`: some of the words that stand in the table are replaced
-- by synonyms. The draws of the `rand` crate are a parameter, and none is a panic.
pub mod Table
pub mod Positions
pub mod Rewrite
use vyse.Prelude.{
  ℕ, suc, ◌-◌, min, Bool, true, false, not, ◌&&◌, ◌||◌, ◌==◌, Option, none, some, List, [], ◌∷◌,
  ◌++◌, Text, codes, join, is_empty, length, take, ltb, leb, if◌then◌else◌,
}
use mathlib.Core.List.{reverse}
use vyse.Prelude.Int.{pos_part}
use vyse.Float.{Float, of_nat}
use vyse.Words.{Unicode, split_whitespace}
use vyse.Defence.Panics.{◌>>=◌}
use vyse.Defence.Random.{Rng}
use vyse.Defence.Synonym.Table.{substitution_table, get_synonyms}

abbrev pub take_while : (ℕ → Bool) → Text → Text
take_while p [] = []
take_while p (c ∷ cs) = elim (p c) [ true ↦ c ∷ take_while p cs | false ↦ [] ]

abbrev pub drop_while : (ℕ → Bool) → Text → Text
drop_while p [] = []
drop_while p (c ∷ cs) = elim (p c) [ true ↦ drop_while p cs | false ↦ c ∷ cs ]

-- `set.contains(&i)`
abbrev pub contains : List ℕ → ℕ → Bool
contains [] i = false
contains (j ∷ js) i = i == j || contains js i

-- `s.get_mut(0..1)` with `make_ascii_uppercase`
unfoldable pub upper_first : Text → Text
upper_first [] = []
upper_first (c ∷ cs) = if leb 0x61 c && leb c 0x7a then (c - 0x20) ∷ cs else c ∷ cs

module _ (u : Unicode) where
  unfoldable pub leading_of : Text → Text
  leading_of word = take_while (λ c. not (u.is_alphabetic c)) word

  unfoldable pub trailing_of : Text → Text
  trailing_of word = reverse (take_while (λ c. not (u.is_alphabetic c)) (reverse word))

  -- `word.trim_matches(|c| !c.is_alphabetic()).to_lowercase()`
  unfoldable pub core_of : Text → Text
  core_of word =
      let trimmed = drop_while (λ c. not (u.is_alphabetic c)) word in
      u.to_lowercase (reverse (drop_while (λ c. not (u.is_alphabetic c)) (reverse trimmed)))

  abbrev pub is_key : Option (List Text) → Bool
  is_key none = false
  is_key (some synonyms) = true

  unfoldable pub is_substitutable : Text → Bool
  is_substitutable word = is_key (get_synonyms (core_of word) substitution_table)

  -- the positions of the words that stand in the table, from position `i` on
  unfoldable pub substitutable_from : ℕ → List Text → List ℕ
  substitutable_from i [] = []
  substitutable_from i (word ∷ words) =
      let rest = substitutable_from (suc i) words in
      if is_substitutable word then i ∷ rest else rest

  -- Capitalised where the word is.
  abbrev pub starts_upper : Text → Bool
  starts_upper [] = false
  starts_upper (c ∷ cs) = u.is_uppercase c

  unfoldable pub dressed : Text → Text → Text
  unfolding upper_first leading_of trailing_of
  dressed word synonym =
      leading_of word
      ++ ((if starts_upper word then upper_first synonym else synonym) ++ trailing_of word)

module _ {G : Type 0} (rng : Rng G) (u : Unicode) where
  -- `synonyms.choose(rng).unwrap()`
  abbrev pub with_choice : Text → Option Text × G → Option (Text × G)
  with_choice word (none, g) = none
  with_choice word (some synonym, g) = some (dressed u word synonym, g)

  abbrev pub with_synonyms : Text → G → Option (List Text) → Option (Text × G)
  with_synonyms word g none = some (word, g)
  with_synonyms word g (some synonyms) = with_choice word (rng.choose g synonyms)

  unfoldable pub replace_word : Bool → Text → G → Option (Text × G)
  unfolding core_of dressed
  replace_word false word g = some (word, g)
  replace_word true word g = with_synonyms word g (get_synonyms (core_of u word) substitution_table)

  -- the loop over the words, from position `i` on
  unfoldable pub replace_words : ℕ → List ℕ → List Text → G → Option (List Text × G)
  replace_words i chosen [] g = some ([], g)
  replace_words i chosen (word ∷ words) g = do
    first ← replace_word (contains chosen i) word g
    rest ← replace_words (suc i) chosen words first.1
    some (first.0 ∷ rest.0, rest.1)

module _ {F : Type 0} ⦃f : Float F⦄ where
  -- `((n as f32 * ratio).ceil() as usize).max(1).min(n)`; the cast is 0 below zero
  unfoldable pub replacements : ℕ → F → ℕ
  replacements n ratio =
      let wanted = pos_part (f.to_int (f.ceil (f.mul (of_nat n) ratio))) in
      min (if ltb wanted 1 then 1 else wanted) n

module _ {F G : Type 0} ⦃f : Float F⦄ (rng : Rng G) (u : Unicode) where
  unfoldable pub substitute_at : List ℕ → List Text → F → G → Option (Text × G)
  unfolding replacements replace_words
  substitute_at substitutable words ratio g = do
    let shuffled = rng.shuffle g substitutable
    let chosen = take (replacements (length substitutable) ratio) shuffled.0
    result ← replace_words rng u 0 chosen words shuffled.1
    some (join (codes " ") result.0, result.1)

  unfoldable pub substitute : Text → F → G → Option (Text × G)
  unfolding substitutable_from substitute_at
  substitute text ratio g =
      let words = split_whitespace u text in
      let substitutable = substitutable_from u 0 words in
      if is_empty words
      then some (text, g)
      else if is_empty substitutable
      then some (text, g)
      else substitute_at substitutable words ratio g
