-- ===== src/Defence/Synonym/Rewrite.antt =====
-- engine/src/defence/synonym.rs, `substitute`: it never panics, and it replaces as many words as it
-- means to, each by a synonym from the table; all others stay as they are.
use vyse.Prelude.{
  ℕ, suc, ◌≤◌, ◌≡◌, ◌⊎◌, refl, ◌∙◌, inl, inr, Bool, true, false, not, ◌&&◌, Option, none, some,
  List, [], ◌∷◌, Text, codes, join, is_empty, nonempty-cons, length, length-take_le, take,
  get_elem?, arith, Bool-cases, Option-cases,
}
use vyse.Float.{Float}
use vyse.Words.{Unicode, split_whitespace}
use vyse.Defence.Random.{Rng, RngLaws}
use vyse.Defence.Synonym.Table.{substitution_table, get_synonyms}
use vyse.Defence.Synonym.{
  contains, core_of, is_substitutable, substitutable_from, dressed, replace_word, replace_words,
  replacements, substitute_at, substitute, with_choice,
}
use vyse.Defence.Synonym.Positions.{
  hits, hits-here, hits-other, IsDistinct-perm, IsDistinct-take, IsWithin-take, hits-eq-length,
  substitutable_from-range, substitutable_from-IsDistinct, is_substitutable-head,
  substitutable_from-tail, words-nonempty, length-perm,
}

-- The second word is the first one, dressed, with a synonym from its row of the table.
pub record IsSynonym (u : Unicode) (word other : Text) : Type 0 where
  pub synonyms : List Text
  pub synonym : Text
  pub place : ℕ
  pub row : get_synonyms (core_of u word) substitution_table ≡ some synonyms
  pub listed : get_elem? synonyms place ≡ some synonym
  pub same : other ≡ dressed u word synonym

-- `n` of the words are replaced by synonyms, and the others are kept, in order.
pub data Rewrites (u : Unicode) : ℕ → List Text → List Text → Type 0 where
  done : Rewrites u 0 [] []
  keep :
      {n : ℕ} {ws vs : List Text} (w : Text) → Rewrites u n ws vs → Rewrites u n (w ∷ ws) (w ∷ vs)
  replaced :
      {n : ℕ} {w v : Text} {ws vs : List Text}
      → IsSynonym u w v
      → Rewrites u n ws vs
      → Rewrites u (suc n) (w ∷ ws) (v ∷ vs)

all_filled : List (Text × List Text) → Bool
all_filled [] = true
all_filled ((k, synonyms) ∷ rows) = not (is_empty synonyms) && all_filled rows

-- No row is without a synonym.
substitution_table-filled : all_filled substitution_table ≡ true
unfolding all_filled substitution_table
substitution_table-filled = refl

get_synonyms-filled :
    (rows : List (Text × List Text)) (key : Text) (synonyms : List Text)
    → all_filled rows ≡ true
    → get_synonyms key rows ≡ some synonyms
    → is_empty synonyms ≡ false
unfolding get_synonyms all_filled
get_synonyms-filled [] key synonyms h e = cc
get_synonyms-filled ((k, ys) ∷ rows) key synonyms h e =
    ground (arith, get_synonyms-filled rows key synonyms)

module _ {G : Type 0} (rng : Rng G) (laws : RngLaws rng) (u : Unicode) where
  with_choice-some :
      (w s : Text) (o : Option Text × G)
      → o.0 ≡ some s
      → with_choice rng u w o ≡ some (dressed u w s, o.1)
  with_choice-some w s (none, g) e = cc
  with_choice-some w s (some t, g) e = cc

  choose-IsSynonym :
      (w : Text) (g : G) (synonyms : List Text)
      → get_synonyms (core_of u w) substitution_table ≡ some synonyms
      → is_empty synonyms ≡ false
      → (v : Text) × (g' : G) × (replace_word rng u true w g ≡ some (v, g')) × IsSynonym u w v
  unfolding replace_word
  choose-IsSynonym w g [] row h = cc
  choose-IsSynonym w g (x ∷ xs) row h =
      let (k, s, listed, drawn) = laws.choose_some g x xs in
      (
        dressed u w s,
        (rng.choose g (x ∷ xs)).1,
        rw row (with_choice-some w s (rng.choose g (x ∷ xs)) drawn),
        record {
          synonyms = x ∷ xs;
          synonym = s;
          place = k;
          row = row;
          listed = listed;
          same = refl;
        },
      )

  replace_word-IsSynonym :
      (w : Text) (g : G)
      → is_substitutable u w ≡ true
      → (v : Text) × (g' : G) × (replace_word rng u true w g ≡ some (v, g')) × IsSynonym u w v
  unfolding is_substitutable
  replace_word-IsSynonym w g key =
      elim (Option-cases (get_synonyms (core_of u w) substitution_table)) [
        | inl missing ↦ absurd (ground arith)
        | inr (synonyms, row) ↦
            choose-IsSynonym w g synonyms row
              (get_synonyms-filled substitution_table _ synonyms substitution_table-filled row)
      ]

  replace_word-kept : (w : Text) (g : G) → replace_word rng u false w g ≡ some (w, g)
  unfolding replace_word
  replace_word-kept w g = refl

  -- The loop replaces the words at the chosen positions.
  replace_words-Rewrites :
      (start : ℕ) (chosen : List ℕ) (words : List Text) (g : G)
      → ((i : ℕ)
          → start ≤ i
          → contains chosen i ≡ true
          → contains (substitutable_from u start words) i ≡ true)
      → (out : List Text) × (g' : G) × (replace_words rng u start chosen words g ≡ some (out, g'))
        × Rewrites u (hits chosen start (length words)) words out
  unfolding replace_words hits
  replace_words-Rewrites start chosen [] g within = ([], g, refl, done)
  replace_words-Rewrites start chosen (w ∷ words) g within =
      elim (Bool-cases (contains chosen start)) [
        | inl here ↦
            let (v, g₁, e, synonym) =
              replace_word-IsSynonym w g
                (is_substitutable-head u start w words (within start (omega arith) here)) in
            let (out, g', e', rest) = replace_words-Rewrites (suc start) chosen words g₁ later in
            (
              v ∷ out,
              g',
              rw here (rw e (rw e')),
              rw (hits-here chosen start (length words) here) (replaced synonym rest),
            )
        | inr other ↦
            let (out, g', e', rest) = replace_words-Rewrites (suc start) chosen words g later in
            (
              w ∷ out,
              g',
              rw other (rw (replace_word-kept w g) (rw e')),
              rw (hits-other chosen start (length words) other) (keep w rest),
            )
      ]
    where
      later :
          (i : ℕ)
          → suc start ≤ i
          → contains chosen i ≡ true
          → contains (substitutable_from u (suc start) words) i ≡ true
      later i h k =
          substitutable_from-tail u start w words i (omega arith) (within i (omega arith) k)

module _ {F G : Type 0} ⦃f : Float F⦄ (rng : Rng G) (laws : RngLaws rng) (u : Unicode) where
  replacements-le : (n : ℕ) (ratio : F) → replacements n ratio ≤ n
  unfolding replacements
  replacements-le n ratio = ground arith

  replacements_bounds :
      (n : ℕ) (ratio : F) → 1 ≤ n → (1 ≤ replacements n ratio) × (replacements n ratio ≤ n)
  unfolding replacements
  replacements_bounds n ratio h = ground arith

  substitute_at-Rewrites :
      (words : List Text) (ratio : F) (g : G)
      → let positions = substitutable_from u 0 words in
        (out : List Text) × (g' : G) × Rewrites u (replacements (length positions) ratio) words out
        × (substitute_at rng u positions words ratio g ≡ some (join (codes " ") out, g'))
  unfolding substitute_at
  substitute_at-Rewrites words ratio g =
      let positions = substitutable_from u 0 words in
      let (shuffled, g₁) = rng.shuffle g positions in
      let perm = laws.shuffle_perm g positions in
      let n = replacements (length positions) ratio in
      let (out, g', e, r) =
        replace_words-Rewrites rng laws u 0 (take n shuffled) words g₁
          (λ i _. IsWithin-take n shuffled positions perm i) in
      let met =
        hits-eq-length (take n shuffled) 0 (length words)
          (IsDistinct-take n shuffled
            (IsDistinct-perm positions shuffled perm (substitutable_from-IsDistinct u 0 words)))
          (λ i h.
            substitutable_from-range u 0 words i (IsWithin-take n shuffled positions perm i h)) in
      let size = length-take_le n shuffled (
        omega
          (arith, length-perm positions shuffled perm, replacements-le (length positions) ratio)) in
      (out, g', rw (met ∙ size) at r, rw e refl)

  -- `substitute` never panics. A text with no word of the table is left as it is; in any other one,
  -- at least one word of the table is replaced and at most all of them, as many as the ratio asks
  -- for, each by a synonym of its row; all other words are kept, in order.
  pub substitute-Rewrites :
      (text : Text) (ratio : F) (g : G)
      → let words = split_whitespace u text in
        let n = length (substitutable_from u 0 words) in
        ((n ≡ 0) × (substitute rng u text ratio g ≡ some (text, g)))
        ⊎ ((1 ≤ replacements n ratio)
            × (replacements n ratio ≤ n)
            × ((out : List Text) × (g' : G) × Rewrites u (replacements n ratio) words out
                × (substitute rng u text ratio g ≡ some (join (codes " ") out, g'))))
  unfolding substitute
  substitute-Rewrites text ratio g =
      let words = split_whitespace u text in
      elim (Bool-cases (is_empty (substitutable_from u 0 words))) [
        | inl missing ↦ inl (ground arith)
        | inr present ↦
            let some_words = words-nonempty u 0 words present in
            let (c, cs, e) = nonempty-cons (substitutable_from u 0 words) present in
            let bounds =
              replacements_bounds (length (substitutable_from u 0 words)) ratio
                (rw e (omega arith)) in
            let (out, g', r, ran) = substitute_at-Rewrites words ratio g in
            inr (bounds.0, bounds.1, (out, g', r, rw some_words (rw present ran)))
      ]
