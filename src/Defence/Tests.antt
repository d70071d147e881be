-- ===== src/Defence/Tests.antt =====
-- engine/src/defence: reordering and seeds at concrete inputs.
use vyse.Prelude.{ℕ, ◌≤◌, ◌<◌, ◌≡◌, ◌⊎◌, refl, true, false, some, List, Text, codes, join, length}
use mathlib.Core.List.{Perm}
use vyse.Defence.Sample.{counter, counter-IsInRange, ascii}
use vyse.Defence.Reorder.{sentences_of, reorder_sentences}
use vyse.Defence.Reorder.Sentences.{reorder_sentences-Perm}

abbrev text : Text
text = codes "One. Two. Three. Four."

-- The last sentence keeps its period, which is doubled where the sentence moves forward.
reorder_test :
    reorder_sentences counter ascii text 5 ≡ some (codes "Three. Four.. One. Two", true, 8)
unfolding reorder_sentences join
reorder_test = refl

reorder_sentences-Perm_example :
    ((length (sentences_of ascii text) < 3)
      × (reorder_sentences counter ascii text 5 ≡ some (text, false, 5)))
    ⊎ ((3 ≤ length (sentences_of ascii text))
        × ((out : List Text) × (g' : ℕ) × Perm (sentences_of ascii text) out
            × (reorder_sentences counter ascii text 5 ≡ some (join (codes ". ") out, true, g'))))
reorder_sentences-Perm_example = reorder_sentences-Perm counter ascii counter-IsInRange text 5

abbrev seed : Text
seed = codes "deadbeef01"

abbrev other_seed : Text
other_seed = codes "deadbeee01"
