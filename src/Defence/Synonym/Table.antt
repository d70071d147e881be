-- ===== src/Defence/Synonym/Table.antt =====
-- engine/src/defence/synonym.rs: the substitution table. The source fills a hash map whose keys are
-- distinct, so that the order of the rows has no part in a lookup.
use Prim.Native.String.{String}
use vyse.Prelude.{Option, none, some, List, [], ◌∷◌, map, Text, codes, text_eq, if◌then◌else◌}

abbrev row : String → List String → Text × List Text
row key synonyms = (codes key, map codes synonyms)

unfoldable pub substitution_table : List (Text × List Text)
substitution_table =
    row "confidence" ("certainty" ∷ "probability" ∷ "likelihood" ∷ "assurance" ∷ [])
    ∷ row "probability" ("likelihood" ∷ "chance" ∷ "odds" ∷ "confidence" ∷ [])
    ∷ row "prediction" ("forecast" ∷ "estimate" ∷ "projection" ∷ "output" ∷ [])
    ∷ row "score" ("rating" ∷ "value" ∷ "measure" ∷ "metric" ∷ [])
    ∷ row "result" ("outcome" ∷ "output" ∷ "response" ∷ "finding" ∷ [])
    ∷ row "output" ("result" ∷ "response" ∷ "answer" ∷ "finding" ∷ [])
    ∷ row "response" ("answer" ∷ "reply" ∷ "output" ∷ "result" ∷ [])
    ∷ row "model" ("system" ∷ "framework" ∷ "classifier" ∷ "algorithm" ∷ [])
    ∷ row "classifier" ("model" ∷ "detector" ∷ "estimator" ∷ "predictor" ∷ [])
    ∷ row "algorithm" ("method" ∷ "approach" ∷ "technique" ∷ "procedure" ∷ [])
    ∷ row "feature" ("attribute" ∷ "property" ∷ "characteristic" ∷ "variable" ∷ [])
    ∷ row "data" ("information" ∷ "input" ∷ "records" ∷ "samples" ∷ [])
    ∷ row "input" ("data" ∷ "query" ∷ "prompt" ∷ "request" ∷ [])
    ∷ row "compute" ("calculate" ∷ "determine" ∷ "evaluate" ∷ "assess" ∷ [])
    ∷ row "calculate" ("compute" ∷ "determine" ∷ "derive" ∷ "assess" ∷ [])
    ∷ row "generate" ("produce" ∷ "create" ∷ "yield" ∷ "output" ∷ [])
    ∷ row "produce" ("generate" ∷ "create" ∷ "yield" ∷ "deliver" ∷ [])
    ∷ row "detect" ("identify" ∷ "recognise" ∷ "find" ∷ "locate" ∷ [])
    ∷ row "identify" ("detect" ∷ "recognise" ∷ "classify" ∷ "determine" ∷ [])
    ∷ row "provide" ("offer" ∷ "deliver" ∷ "supply" ∷ "give" ∷ [])
    ∷ row "return" ("provide" ∷ "deliver" ∷ "yield" ∷ "output" ∷ [])
    ∷ row "accurate" ("precise" ∷ "correct" ∷ "reliable" ∷ "exact" ∷ [])
    ∷ row "precise" ("accurate" ∷ "exact" ∷ "correct" ∷ "reliable" ∷ [])
    ∷ row "high" ("elevated" ∷ "significant" ∷ "substantial" ∷ "strong" ∷ [])
    ∷ row "low" ("minimal" ∷ "slight" ∷ "reduced" ∷ "small" ∷ [])
    ∷ row "significant" ("notable" ∷ "substantial" ∷ "considerable" ∷ "meaningful" ∷ [])
    ∷ row "class" ("category" ∷ "type" ∷ "label" ∷ "group" ∷ [])
    ∷ row "category" ("class" ∷ "type" ∷ "group" ∷ "classification" ∷ [])
    ∷ row "label" ("tag" ∷ "class" ∷ "category" ∷ "annotation" ∷ [])
    ∷ row "value" ("measure" ∷ "quantity" ∷ "amount" ∷ "reading" ∷ [])
    ∷ row "error" ("mistake" ∷ "inaccuracy" ∷ "discrepancy" ∷ "deviation" ∷ [])
    ∷ []

-- `table.get(key)`
unfoldable pub get_synonyms : Text → List (Text × List Text) → Option (List Text)
get_synonyms key [] = none
get_synonyms key ((k, synonyms) ∷ rows) =
    if text_eq key k then some synonyms else get_synonyms key rows
