-- ===== src/Store/LogTests.antt =====
-- A run of the two statements of engine/src/store/logs.rs on a table of three rows.
use vyse.Prelude.{
  ℕ, ◌+◌, ◌≡◌, refl, false, true, none, List, [], ◌∷◌, ◌++◌, map, Text, codes, text_eq, ok, arith,
}
use vyse.Prelude.Int.{pos}
use vyse.Float.Milli.{Milli, milli}
use vyse.Store.Logs.{
  QueryLog, Row, Postgres, columns, bindings, from_row, insert, read_rows, list_recent,
}
use vyse.Store.Logs.Rows.{
  Table, year_2000, stored, kept, project, entries_at, insert_all, list_recent-insert_all,
}

-- A table that returns its first two rows, the second one first.
abbrev pg : Postgres Milli Text (List (Row Milli))
pg = record {
  insert_into = λ p name row. ok (p ++ stored row ∷ []);
  select_from = λ p name names order limit. ok (entries_at (1 ∷ 0 ∷ []) (map (project names) p));
  column_decode = codes "column decode";
}

abbrev pg_table : Table Milli Text (List (Row Milli)) pg
pg_table = record {
  rows = λ p. p;
  inserts = λ p p' row recent done. ground arith;
  selects = λ p names order limit found done. (1 ∷ 0 ∷ [], ground arith);
}

abbrev log : Text → QueryLog Milli
log id = record {
  id = id;
  session_id_hash = codes "abcdef0123";
  timestamp = year_2000 + 1234567;
  prompt_hash = codes "ff";
  tier = pos 2;
  hybrid_score = milli.lit 60 2;
  v_score = milli.lit 10 2;
  d_score = milli.lit 20 2;
  e_score = milli.lit 30 2;
  a_score = milli.lit 40 2;
  intent_flagged = false;
  intent_label = none;
  noise_applied = true;
  noise_steps = none;
  request_id = codes "r1";
}

abbrev logs : List (QueryLog Milli)
logs = log (codes "a") ∷ log (codes "b") ∷ log (codes "c") ∷ []

list_recent-insert_all_example :
    (is : List ℕ) × (list_recent pg (map bindings (map kept logs)) (pos 2)
      ≡ ok (entries_at is (map kept logs)))
list_recent-insert_all_example =
    list_recent-insert_all pg pg_table [] (map bindings (map kept logs)) logs (pos 2)
      (entries_at (1 ∷ 0 ∷ []) (map (project columns) (map bindings (map kept logs)))) refl
      (omega arith, (omega arith, (omega arith, tt))) (unfold insert_all insert bindings in refl)
      refl

list_recent_test :
    list_recent pg (map bindings (map kept logs)) (pos 2)
    ≡ ok (kept (log (codes "b")) ∷ kept (log (codes "a")) ∷ [])
unfolding list_recent read_rows from_row bindings text_eq
list_recent_test = refl
