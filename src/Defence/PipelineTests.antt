-- ===== src/Defence/PipelineTests.antt =====
-- engine/src/defence: synonyms, numbers and the pipeline at concrete inputs.
use vyse.Prelude.{
  ℕ, ◌≤◌, ◌≡◌, ◌≢◌, ◌⊎◌, refl, true, false, ◌||◌, none, some, Option, List, [], ◌∷◌, Text, codes,
  join, is_empty, length, arith, text_eq, Bool, ◌&&◌,
}
use vyse.Prelude.Int.{pos}
use vyse.Float.{zero_f}
use vyse.Float.Milli.{Milli, milli}
use vyse.Words.{split_whitespace}
use vyse.Config.{DefenceConfig}
use vyse.Defence.Synonym.Table.{substitution_table, get_synonyms}
use vyse.Defence.Synonym.{
  substitutable_from, replacements, substitute, replace_word, is_substitutable, core_of,
}
use vyse.Defence.Synonym.Rewrite.{Rewrites, substitute-Rewrites}
use vyse.Defence.Numeric.{number_pattern, seed_to_u64, shifted, perturb}
use vyse.Defence.Numeric.Shifts.{Patched, perturb-Patched}
use vyse.Defence.Pipeline.{PipelineResult, run}
use vyse.Defence.Pipeline.Steps.{IsSubstituted, generator, Applied, run-Applied}
use vyse.Defence.Pipeline.Replay.{run-replay}
use vyse.Defence.Sample.{
  counter, counter_laws, ascii, digits, digits-IsExact, digits-IsPlaced, numerals, tools,
}

abbrev text : Text
text = codes "The Model has (high) confidence"

abbrev same : Milli → Milli
same x = x

abbrev half : Milli
half = milli.lit 5 1

-- Two of the three words of the table are replaced, and their case and punctuation are kept.
substitute_test :
    substitute counter ascii text half 0 ≡ some (codes "The System has (elevated) confidence", 3)
unfolding substitute split_whitespace is_substitutable get_synonyms substitution_table text_eq
    core_of replace_word join
substitute_test = refl

substitute-Rewrites_example :
    let words = split_whitespace ascii text in
    let n = length (substitutable_from ascii 0 words) in
    ((n ≡ 0) × (substitute counter ascii text half 0 ≡ some (text, 0)))
    ⊎ ((1 ≤ replacements n half)
        × (replacements n half ≤ n)
        × ((out : List Text) × (g' : ℕ) × Rewrites ascii (replacements n half) words out
            × (substitute counter ascii text half 0 ≡ some (join (codes " ") out, g'))))
substitute-Rewrites_example = substitute-Rewrites counter counter_laws ascii text half 0

distinct_keys : List (Text × List Text) → Bool
distinct_keys [] = true
distinct_keys ((k, synonyms) ∷ rows) = is_absent (get_synonyms k rows) && distinct_keys rows
  where
    is_absent : Option (List Text) → Bool
    is_absent none = true
    is_absent (some found) = false

-- No key of the table stands twice.
substitution_table_test : distinct_keys substitution_table ≡ true
unfolding distinct_keys substitution_table get_synonyms text_eq
substitution_table_test = refl

perturb-Patched_example :
    (((milli.le half zero_f || is_empty (codes "at 42")) ≡ true)
      × (perturb same numerals digits (codes "at 42") half (codes "ab") ≡ some (codes "at 42")))
    ⊎ (((milli.le half zero_f || is_empty (codes "at 42")) ≡ false)
        × (((digits.new number_pattern ≡ none)
              × (perturb same numerals digits (codes "at 42") half (codes "ab") ≡ none))
            ⊎ ((re : Unit {0}) × (out : Text) × (digits.new number_pattern ≡ some re)
                × (perturb same numerals digits (codes "at 42") half (codes "ab") ≡ some out)
                × Patched
                    (shifted same numerals (seed_to_u64 (codes "ab")) half)
                    0
                    (digits.find_all re (codes "at 42")).0
                    (codes "at 42")
                    out)))
perturb-Patched_example =
    perturb-Patched same numerals digits digits-IsExact digits-IsPlaced (codes "at 42") half
      (codes "ab")

abbrev cfg : DefenceConfig Milli
cfg = record {
  tier2_synonym_ratio = milli.lit 5 1;
  tier3_synonym_ratio = milli.lit 7 1;
  numeric_perturb_pct = milli.lit 5 2;
  reorder_sentences = true;
}

run-Applied_example :
    ((◌≡◌ {A = ℕ} 3 1)
      × (run tools text 3 (codes "ann") (pos 2) cfg
          ≡ some (record { served_response = text; steps_applied = []; noise_seed_hex = [] })))
    ⊎ ((◌≢◌ {A = ℕ} 3 1)
        × ((substituted : Text × ℕ) × IsSubstituted tools cfg (milli.lit 7 1) text substituted.0
            × (substitute counter ascii text
                  (milli.lit 7 1)
                  (generator tools cfg (codes "ann") (pos 2))
                ≡ some substituted)
            × (((tools.perturb substituted.0 (milli.lit 5 2) substituted.1 ≡ none)
                  × (run tools text 3 (codes "ann") (pos 2) cfg ≡ none))
                ⊎ ((changed : Text × Bool × ℕ) × (res : PipelineResult) × (tools.perturb
                        substituted.0
                        (milli.lit 5 2)
                        substituted.1
                      ≡ some changed)
                    × (run tools text 3 (codes "ann") (pos 2) cfg ≡ some res)
                    × (length res.noise_seed_hex ≡ 16)
                    × Applied tools cfg 3 substituted.0 changed res.served_response
                        res.steps_applied))))
run-Applied_example =
    run-Applied tools counter_laws cfg (λ key message. omega arith) text 3 (codes "ann") (pos 2)

-- What both runs make of the text.
abbrev perturbed : PipelineResult
perturbed = record {
  served_response = codes "The System has (elevated) confidence 7";
  steps_applied = codes "synonym_substitution(ratio=0.50)" ∷ codes "numeric_perturb(pct=0.50)" ∷ [];
  noise_seed_hex = codes "0102030405060703";
}

run-replay_example : ◌≡◌ {A = PipelineResult} perturbed perturbed
unfolding run split_whitespace is_substitutable get_synonyms substitution_table text_eq core_of
    replace_word join
run-replay_example =
    run-replay tools (λ key message. omega arith) text 2 cfg (codes "ann") (codes "bob") (pos 2)
      (pos 5) perturbed perturbed refl refl refl
