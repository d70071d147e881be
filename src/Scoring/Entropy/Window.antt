-- ===== src/Scoring/Entropy/Window.antt =====
-- engine/src/scoring/entropy.rs: which prompts count, and the range of the E-Score.
use vyse.Prelude.{
  ℕ, ◌-◌, ◌≤◌, ◌<◌, ◌≡◌, ◌==◌, inl, inr, List, [], ◌∷◌, ◌++◌, length, length-append, drop-append,
  ltb, le→ltb, lt→ltb, Text, Bool-cases, arith,
}
use vyse.Float.{Float, zero_f, one_f, IsScore, IsOrdered, IsMonotone, IsAbsorbing}
use vyse.Float.Clamp.{clamp-IsScore}
use vyse.Words.{Unicode}
use vyse.Scoring.Entropy.{
  Freq, tail_window, no_counts, count_prompts, inverse_of, inverse_bigram_entropy,
}

module _ {ℓ} {A : Type ℓ} where
  -- The window keeps the most recent prompts.
  pub tail_window-append :
      (old recent : List A) → tail_window (old ++ recent) (length recent) ≡ recent
  unfolding tail_window
  tail_window-append [] recent = rw (le→ltb (length recent) (length recent) (omega arith))
  tail_window-append (x ∷ old) recent =
      let more : length recent < length ((x ∷ old) ++ recent) =
        omega (arith, length-append old recent) in
      let cut : length ((x ∷ old) ++ recent) - length recent ≡ length (x ∷ old) =
        omega (arith, length-append old recent) in
      rw (lt→ltb _ _ more) (rw cut (drop-append (x ∷ old) recent))

  pub tail_window-short : (xs : List A) (n : ℕ) → length xs ≤ n → tail_window xs n ≡ xs
  unfolding tail_window
  tail_window-short xs n h = rw (le→ltb n (length xs) h)

module _ {F : Type 0} ⦃f : Float F⦄ where
  one_sub-IsScore : IsMonotone F → IsAbsorbing F → (x : F) → IsScore x → IsScore (f.sub one_f x)
  one_sub-IsScore mono nans x (inl n) = inl (nans.sub_nan_right one_f x n)
  one_sub-IsScore mono nans x (inr (lo, hi)) = inr (mono.one_sub x lo hi)

module _ {F : Type 0} ⦃f : Float F⦄ (u : Unicode) (values : Freq → List ℕ) where
  -- Of a longer history only the last `window` prompts count, for a window of two or more.
  pub inverse_bigram_entropy-append :
      (old recent : List Text)
      → 2 ≤ length recent
      → inverse_bigram_entropy {F = F} u values (old ++ recent) (length recent)
        ≡ inverse_bigram_entropy u values recent (length recent)
  unfolding inverse_bigram_entropy
  inverse_bigram_entropy-append old recent h = rw (
    tail_window-append old recent,
    tail_window-short recent (length recent) (omega arith),
    le→ltb (length (old ++ recent)) 2 (omega (arith, length-append old recent)),
    le→ltb (length recent) 2 h,
  )

  -- The E-Score lies in the unit interval or is NaN.
  pub inverse_bigram_entropy-IsScore :
      (laws : IsOrdered F) (mono : IsMonotone F) (nans : IsAbsorbing F) (history : List Text)
      (window : ℕ)
      → IsScore {F = F} (inverse_bigram_entropy u values history window)
  unfolding inverse_bigram_entropy
  inverse_bigram_entropy-IsScore laws mono nans history window =
      elim (Bool-cases (ltb (length history) 2)) [
        | inl few ↦ rw few zero
        | inr many ↦
            rw many
              (elim (Bool-cases
                ((count_prompts u (tail_window history window) no_counts).total == 0)) [
                  | inl none ↦ rw none zero
                  | inr counted ↦
                      rw counted
                        (unfold inverse_of in one_sub-IsScore mono nans _ (clamp-IsScore laws _))
                ])
      ]
    where
      zero : IsScore {F = F} zero_f
      zero = inr (laws.lit_num 0 0, laws.zero-le-one)
