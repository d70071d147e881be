-- ===== src/Scoring/Entropy.antt =====
-- engine/src/scoring/entropy.rs: the E-Score. The Unicode tables are a parameter, and so is the order
-- in which the hash map yields its values. The counters are `u32`.
pub mod Window
pub mod Frequency
use vyse.Prelude.{
  ℕ, ◌+◌, ◌-◌, ◌%◌, ◌^◌, ◌==◌, Bool, ◌&&◌, List, [], ◌∷◌, map, length, drop, ltb, Text, text_eq,
  if◌then◌else◌,
}
use vyse.Float.{Float, zero_f, one_f, clamp, max_f, sum_f, of_nat}
use vyse.Words.{Unicode, split_whitespace}

abbrev pub Bigram : Type 0
Bigram = Text × Text

unfoldable pub same_bigram : Bigram → Bigram → Bool
same_bigram (a, b) (c, d) = text_eq a c && text_eq b d

abbrev pub Freq : Type 0
Freq = List (Bigram × ℕ)

-- `n += 1` on a `u32`
abbrev pub add_one_u32 : ℕ → ℕ
add_one_u32 n = (n + 1) % 2 ^ 32

-- `*freq.entry(bigram).or_insert(0) += 1`
unfoldable pub count_bigram : Bigram → Freq → Freq
count_bigram b [] = (b, 1) ∷ []
count_bigram b ((k, n) ∷ rest) =
    if same_bigram k b then (k, add_one_u32 n) ∷ rest else (k, n) ∷ count_bigram b rest

-- `history[history.len() - window..]` where the history is longer than the window
unfoldable pub tail_window {ℓ} : {A : Type ℓ} → List A → ℕ → List A
tail_window history window =
    if ltb window (length history) then drop (length history - window) history else history

-- `HashMap` with the number of bigrams counted
pub record Counts : Type 0 where
  pub freq : Freq
  pub total : ℕ

abbrev pub no_counts : Counts
no_counts = record { freq = []; total = 0 }

-- the inner loop
unfoldable pub count_all : List Bigram → Counts → Counts
count_all [] c = c
count_all (b ∷ bs) c =
    count_all bs (record { freq = count_bigram b c.freq; total = add_one_u32 c.total })

module _ (u : Unicode) where
  -- `tokens.windows(2)`, in lower case
  unfoldable pub bigrams : List Text → List Bigram
  bigrams [] = []
  bigrams (_ ∷ []) = []
  bigrams (s ∷ t ∷ rest) = (u.to_lowercase s, u.to_lowercase t) ∷ bigrams (t ∷ rest)

  -- the outer loop
  unfoldable pub count_prompts : List Text → Counts → Counts
  count_prompts [] c = c
  count_prompts (p ∷ ps) c = count_prompts ps (count_all (bigrams (split_whitespace u p)) c)

module _ {F : Type 0} ⦃f : Float F⦄ (u : Unicode) (values : Freq → List ℕ) where
  -- `-p * p.log2()` for `p = count / total`
  abbrev pub entropy_term : ℕ → ℕ → F
  entropy_term total count =
      let p = f.div (of_nat count) (of_nat total) in f.mul (f.neg p) (f.log2 p)

  -- the part behind `if total == 0`
  unfoldable pub inverse_of : Counts → F
  inverse_of c =
      let entropy = sum_f (map (entropy_term c.total) (values c.freq)) in
      let max_entropy = max_f (f.log2 (of_nat (length c.freq))) one_f in
      let normalised = clamp (f.div entropy max_entropy) zero_f one_f in f.sub one_f normalised

  unfoldable pub inverse_bigram_entropy : List Text → ℕ → F
  inverse_bigram_entropy history window =
      if ltb (length history) 2
      then zero_f
      else (let c = count_prompts u (tail_window history window) no_counts in
          if c.total == 0 then zero_f else inverse_of c)
