-- ===== src/Defence/Reorder.antt =====
-- engine/src/defence/mod.rs, `reorder_sentences`: a Fisher-Yates shuffle of the sentences. An index
-- out of bounds panics (none). The random generator of the `rand` crate is a parameter.
pub mod Shuffle
pub mod Sentences
use vyse.Prelude.{
  ℕ, zero, suc, ◌-◌, ◌==◌, Bool, true, false, not, ◌&&◌, Option, none, some, List, [], ◌∷◌, Text,
  codes, join, is_empty, length, get_elem?, filter, ltb, if◌then◌else◌,
}
use vyse.Words.{Unicode}
use vyse.Defence.Panics.{◌>>=◌}
use vyse.Defence.Random.{Rng}

abbrev pub onto_first : ℕ → List Text → List Text
onto_first c [] = (c ∷ []) ∷ []
onto_first c (t ∷ ts) = (c ∷ t) ∷ ts

-- `text.split(". ")`
unfoldable pub split_sentences : Text → List Text
split_sentences [] = [] ∷ []
split_sentences (c ∷ []) = (c ∷ []) ∷ []
split_sentences (c ∷ d ∷ s) =
    let after = split_sentences s in
    let within = split_sentences (d ∷ s) in
    if c == 0x2e && d == 0x20 then [] ∷ after else onto_first c within

-- The write of `y` at `j`, with the item that stood there.
unfoldable pub replace {ℓ} : {A : Type ℓ} → ℕ → A → List A → Option (A × List A)
replace j y [] = none
replace zero y (x ∷ xs) = some (x, y ∷ xs)
replace (suc j) y (x ∷ xs) = do out ← replace j y xs; some (out.0, x ∷ out.1)

-- `indices.swap(i, j)`
unfoldable pub swap {ℓ} : {A : Type ℓ} → ℕ → ℕ → List A → Option (List A)
unfolding replace
swap i j [] = none
swap zero zero (x ∷ xs) = some (x ∷ xs)
swap zero (suc j) (x ∷ xs) = do out ← replace j x xs; some (out.0 ∷ out.1)
swap (suc i) zero (x ∷ xs) = do out ← replace i x xs; some (out.0 ∷ out.1)
swap (suc i) (suc j) (x ∷ xs) = do out ← swap i j xs; some (x ∷ out)

-- `(start..start + n).collect()`
abbrev pub range_from : ℕ → ℕ → List ℕ
range_from start zero = []
range_from start (suc n) = start ∷ range_from (suc start) n

-- `indices.iter().map(|&i| sentences[i])`
unfoldable pub pick {ℓ} : {A : Type ℓ} → List A → List ℕ → Option (List A)
pick xs [] = some []
pick xs (i ∷ is) = do x ← get_elem? xs i; rest ← pick xs is; some (x ∷ rest)

module _ {G : Type 0} (rng : Rng G) where
  -- The loop `for i in (1..=last).rev()`.
  unfoldable pub shuffle_down {ℓ} : {A : Type ℓ} → ℕ → G → List A → Option (List A × G)
  unfolding swap
  shuffle_down zero g xs = some (xs, g)
  shuffle_down (suc i) g xs = do
    let drawn = rng.gen_range g (suc i)
    swapped ← swap (suc i) drawn.0 xs
    shuffle_down i drawn.1 swapped

module _ (u : Unicode) where
  unfoldable pub sentences_of : Text → List Text
  unfolding split_sentences
  sentences_of text = filter (λ s. not (is_empty (u.trim s))) (split_sentences text)

module _ {G : Type 0} (rng : Rng G) where
  -- The indices are shuffled, and the sentences joined in their order.
  unfoldable pub shuffle_sentences : List Text → G → Option (Text × Bool × G)
  unfolding shuffle_down pick
  shuffle_sentences sentences g = do
    indices ← shuffle_down rng (length sentences - 1) g (range_from 0 (length sentences))
    reordered ← pick sentences indices.0
    some (join (codes ". ") reordered, true, indices.1)

module _ {G : Type 0} (rng : Rng G) (u : Unicode) where
  unfoldable pub reorder_sentences : Text → G → Option (Text × Bool × G)
  unfolding sentences_of shuffle_sentences
  reorder_sentences text g =
      let sentences = sentences_of u text in
      if ltb (length sentences) 3 then some (text, false, g) else shuffle_sentences rng sentences g
