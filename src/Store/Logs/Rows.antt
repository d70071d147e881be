-- ===== src/Store/Logs/Rows.antt =====
-- engine/src/store/logs.rs: the rows that `insert` writes are the ones that `list_recent` reads.
use vyse.Prelude.{
  ℕ, zero, suc, ◌*◌, ◌/◌, ◌^◌, ◌≤◌, All, codes, ◌≡◌, refl, ap, ◌∙◌, sym, none, some, List, [], ◌∷◌,
  map, get_elem?, Text, Result-cases, text_eq, ◌++◌, Result, ok, ◌>>=◌, arith, Option-cases, inl,
  inr, if◌then◌else◌,
}
use mathlib.Core.List.{append-nil, append_assoc}
use vyse.Prelude.Int.{ℤ}
use vyse.Clock.{DateTime}
use vyse.Store.Logs.{
  QueryLog, Value, timestamptz, Row, Postgres, table, columns, bindings, from_row, insert,
  read_rows, list_recent,
}

module _ {F : Type 0} where
  -- The named column of a row.
  abbrev pub column : Text → Row F → Row F
  column name [] = []
  column name ((key, v) ∷ row) = if text_eq name key then (key, v) ∷ [] else column name row

  -- The named columns of a row, in the order of the names.
  abbrev pub project : List Text → Row F → Row F
  project [] row = []
  project (name ∷ names) row = column name row ++ project names row

-- The items at some positions of a list.
abbrev pub entries_at {ℓ} : {A : Type ℓ} → List ℕ → List A → List A
entries_at [] xs = []
entries_at (i ∷ is) xs = elim (get_elem? xs i) [
  | none ↦ entries_at is xs
  | some x ↦ x ∷ entries_at is xs
]

module _ {ℓ κ} {A : Type ℓ} {B : Type κ} (f : A → B) where
  get_elem?-map :
      (xs : List A) (i : ℕ) (x : A) → get_elem? xs i ≡ some x → get_elem? (map f xs) i ≡ some (f x)
  get_elem?-map [] i x h = ground arith
  get_elem?-map (y ∷ xs) zero x h = ground arith
  get_elem?-map (y ∷ xs) (suc i) x h = get_elem?-map xs i x h

  get_elem?-map-none : (xs : List A) (i : ℕ) → get_elem? xs i ≡ none → get_elem? (map f xs) i ≡ none
  get_elem?-map-none [] i h = refl
  get_elem?-map-none (y ∷ xs) zero h = ground arith
  get_elem?-map-none (y ∷ xs) (suc i) h = get_elem?-map-none xs i h

  entries_at-map : (is : List ℕ) (xs : List A) → entries_at is (map f xs) ≡ map f (entries_at is xs)
  entries_at-map [] xs = refl
  entries_at-map (i ∷ is) xs = elim (Option-cases (get_elem? xs i)) [
    | inl out ↦ rw (entries_at, out, get_elem?-map-none xs i out) (entries_at-map is xs)
    | inr (x, at) ↦
        rw (entries_at, at, get_elem?-map xs i x at) (ap (◌∷◌ (f x)) (entries_at-map is xs))
  ]

-- The first nanosecond of the year 2000.
abbrev pub year_2000 : DateTime
year_2000 = 946684800 * 10 ^ 9

-- A column of the type `timestamptz` keeps microseconds. The rest is cut off towards the year 2000,
-- downwards for what is later.
abbrev pub to_micros : DateTime → DateTime
to_micros t = t / 1000 * 1000

module _ {F : Type 0} where
  abbrev pub stored : Row F → Row F
  stored [] = []
  stored ((name, timestamptz t) ∷ row) = (name, timestamptz (to_micros t)) ∷ stored row
  stored ((name, v) ∷ row) = (name, v) ∷ stored row

  abbrev pub IsRecent : Text × Value F → Type 0
  IsRecent (name, timestamptz t) = year_2000 ≤ t
  IsRecent (name, v) = Unit

  -- The row of the query log as the table keeps it.
  abbrev pub kept : QueryLog F → QueryLog F
  kept log = record log { timestamp = to_micros log.timestamp }

  bindings-IsRecent : (log : QueryLog F) → year_2000 ≤ log.timestamp → All IsRecent (bindings log)
  unfolding bindings
  bindings-IsRecent log h = (tt, (tt, (h, _)))

  stored-bindings : (log : QueryLog F) → stored (bindings log) ≡ bindings (kept log)
  unfolding bindings
  stored-bindings log = refl

-- What PostgreSQL documents of the two statements: an insertion adds the row with these columns, its
-- timestamps to the microsecond, and a selection returns the named columns of some rows of the
-- table, in some order.
pub record Table (F E P : Type 0) (pg : Postgres F E P) : Type 0 where
  pub rows : P → List (Row F)
  pub inserts :
      (p p' : P) (row : Row F)
      → All IsRecent row
      → pg.insert_into p table row ≡ ok p'
      → rows p' ≡ rows p ++ stored row ∷ []
  pub selects :
      (p : P) (names : List Text) (order : Text) (limit : ℤ) (found : List (Row F))
      → pg.select_from p table names order limit ≡ ok found
      → (is : List ℕ) × (found ≡ entries_at is (map (project names) (rows p)))

module _ {F E P : Type 0} (pg : Postgres F E P) where
  -- The handlers' tasks insert one row each, from the first to the last of the list.
  unfoldable pub insert_all : P → List (QueryLog F) → Result E P
  insert_all p [] = ok p
  insert_all p (log ∷ logs) = do p' ← insert pg p log; insert_all p' logs

  -- The columns that `list_recent` selects of a row that `insert` wrote are read back as the row.
  from_row-bindings : (log : QueryLog F) → from_row (project columns (bindings log)) ≡ some log
  unfolding from_row bindings text_eq
  from_row-bindings log = refl

  abbrev written : QueryLog F → Row F
  written log = project columns (bindings log)

  read_rows-written : (logs : List (QueryLog F)) → read_rows pg (map written logs) ≡ ok logs
  unfolding read_rows
  read_rows-written [] = refl
  read_rows-written (log ∷ logs) = rw (from_row-bindings log, read_rows-written logs) refl

  insert_all-rows :
      (t : Table F E P pg) (p p' : P) (logs : List (QueryLog F))
      → All (λ log. year_2000 ≤ log.timestamp) logs
      → insert_all p logs ≡ ok p'
      → t.rows p' ≡ t.rows p ++ map bindings (map kept logs)
  unfolding insert_all insert
  insert_all-rows t p p' [] recent done =
      let same : p ≡ p' = ground arith in ap t.rows (sym same) ∙ sym (append-nil (t.rows p))
  insert_all-rows t p p' (log ∷ logs) (now, recent) done =
      elim (Result-cases (pg.insert_into p table (bindings log))) [
        | inr (e, failed) ↦ absurd (ground arith)
        | inl (q, first) ↦
            let rest : insert_all q logs ≡ ok p' = rw first at done in
            let one : t.rows q ≡ t.rows p ++ bindings (kept log) ∷ [] =
              t.inserts p q (bindings log) (bindings-IsRecent log now) first
              ∙ ap (λ row. t.rows p ++ row ∷ []) (stored-bindings log) in
            insert_all-rows t q p' logs recent rest
            ∙ ap (λ rows. rows ++ map bindings (map kept logs)) one
            ∙ append_assoc (t.rows p) (bindings (kept log) ∷ []) (map bindings (map kept logs))
      ]

  -- Once some rows have been inserted into an empty table, `list_recent` returns some of them, each
  -- as it was inserted but for the nanoseconds of its timestamp, of which whole microseconds are left,
  -- with no error of decoding, if the selection succeeds. (PostgreSQL inserts the row with its
  -- timestamp to the microsecond and selects the columns of rows of the table; the timestamps are of
  -- the year 2000 or later.)
  pub list_recent-insert_all :
      (t : Table F E P pg) (p p' : P) (logs : List (QueryLog F)) (limit : ℤ) (found : List (Row F))
      → t.rows p ≡ []
      → All (λ log. year_2000 ≤ log.timestamp) logs
      → insert_all p logs ≡ ok p'
      → pg.select_from p' table columns (codes "timestamp") limit ≡ ok found
      → (is : List ℕ) × (list_recent pg p' limit ≡ ok (entries_at is (map kept logs)))
  unfolding list_recent
  list_recent-insert_all t p p' logs limit found empty recent inserted selected =
      let (is, picked) = t.selects p' columns (codes "timestamp") limit found selected in
      let rows : t.rows p' ≡ map bindings (map kept logs) =
        insert_all-rows t p p' logs recent inserted
        ∙ ap (λ rows. rows ++ map bindings (map kept logs)) empty in
      (
        is,
        rw (selected, picked, rows)
            (rw (map-map (map kept logs), entries_at-map written is (map kept logs))
              (read_rows-written (entries_at is (map kept logs)))),
      )
    where
      map-map :
          (logs : List (QueryLog F)) → map (project columns) (map bindings logs) ≡ map written logs
      map-map [] = refl
      map-map (log ∷ logs) = ap (◌∷◌ (written log)) (map-map logs)
