-- ===== src/Defence/Numeric/Shifts.antt =====
-- engine/src/defence/numeric.rs, `perturb`: only the numbers of a text are changed.
use vyse.Prelude.{
  ℕ, ◌+◌, ◌≡◌, ◌⊎◌, inl, inr, true, false, ◌||◌, none, some, List, [], ◌∷◌, ◌++◌, Text, is_empty,
  Bool-cases, Option-cases,
}
use vyse.Float.{Float, zero_f}
use vyse.Words.{byte_len}
use vyse.Defence.Numeric.{Regex, Numerals, number_pattern, seed_to_u64, shifted, rebuild, perturb}

-- What the `regex` crate documents of `find_all`: the texts between the matches, and the matches,
-- make up the text.
abbrev pub IsExact : {Re : Type 0} → Regex Re → Type 0
IsExact {Re} regex =
    (re : Re) (text : Text)
    → rebuild (λ start matched. matched) (regex.find_all re text).0 (regex.find_all re text).1
      ≡ text

-- And of the byte where a match starts: the end of the last match, and the text between them. (The
-- look-around of the pattern is empty, so that group 1 is the whole match.)
abbrev pub IsPlaced : ℕ → List (Text × ℕ × Text) → Type 0
IsPlaced at [] = Unit
IsPlaced at ((gap, start, matched) ∷ found) =
    (start ≡ at + byte_len gap) × IsPlaced (start + byte_len matched) found

-- From the byte `at` on, the second text is the first one with each of the matches changed for its
-- byte; all between them is kept.
pub data Patched (change : ℕ → Text → Text)
    : ℕ → List (Text × ℕ × Text) → Text → Text → Type 0 where
  rest : (at : ℕ) (text : Text) → Patched change at [] text text
  patch :
      {at start : ℕ} {found : List (Text × ℕ × Text)} {old new : Text} (gap matched : Text)
      → start ≡ at + byte_len gap
      → Patched change (start + byte_len matched) found old new
      → Patched change at
          ((gap, start, matched) ∷ found)
          (gap ++ (matched ++ old))
          (gap ++ (change start matched ++ new))

rebuild-Patched :
    (change : ℕ → Text → Text) (at : ℕ) (found : List (Text × ℕ × Text)) (end : Text)
    → IsPlaced at found
    → Patched change at found
        (rebuild (λ start matched. matched) found end)
        (rebuild change found end)
unfolding rebuild
rebuild-Patched change at [] end placed = rest at end
rebuild-Patched change at ((gap, start, matched) ∷ found) end (here, placed) =
    patch gap matched here (rebuild-Patched change (start + byte_len matched) found end placed)

module _ {F D Re : Type 0} ⦃f : Float F⦄ ⦃d : Float D⦄ (widen : F → D) (numerals : Numerals D)
    (regex : Regex Re) (exact : IsExact regex)
    (placed : (re : Re) (text : Text) → IsPlaced 0 (regex.find_all re text).0) where
  -- A fraction that is not positive changes nothing, nor does any fraction an empty text. Else, if
  -- the crate refuses the pattern, `perturb` panics at every text; if it compiles, every match is
  -- replaced by its shift for the byte where it starts, and all text between them is kept. (The
  -- matches and the texts between them make up the text, and each match starts at its byte.)
  pub perturb-Patched :
      (text : Text) (fraction : F) (seed : List ℕ)
      → (((f.le fraction zero_f || is_empty text) ≡ true)
          × (perturb widen numerals regex text fraction seed ≡ some text))
        ⊎ (((f.le fraction zero_f || is_empty text) ≡ false)
            × (((regex.new number_pattern ≡ none)
                  × (perturb widen numerals regex text fraction seed ≡ none))
                ⊎ ((re : Re) × (out : Text) × (regex.new number_pattern ≡ some re)
                    × (perturb widen numerals regex text fraction seed ≡ some out)
                    × Patched
                        (shifted widen numerals (seed_to_u64 seed) fraction)
                        0
                        (regex.find_all re text).0
                        text
                        out)))
  unfolding perturb
  perturb-Patched text fraction seed = elim (Bool-cases (f.le fraction zero_f || is_empty text)) [
    | inl off ↦ inl (off, rw off)
    | inr on ↦ elim (Option-cases (regex.new number_pattern)) [
      | inl refused ↦ inr (on, inl (refused, rw on (rw refused)))
      | inr (re, compiled) ↦
          let change = shifted widen numerals (seed_to_u64 seed) fraction in
          let found = regex.find_all re text in
          inr (
            on,
            inr (
              re,
              rebuild change found.0 found.1,
              compiled,
              rw on (rw compiled),
              rw (exact re text) at (rebuild-Patched change 0 found.0 found.1 (placed re text)),
            ),
          )
    ]
  ]
