-- ===== src/Store/Logs.antt =====
-- engine/src/store/logs.rs: the rows of the query log, and the two statements on them. PostgreSQL is a
-- parameter: `P` is its state, and a failed statement yields an error of the type `E`, `VyseError`.
pub mod Rows
use vyse.Prelude.{
  Bool, Option, none, some, List, [], ◌∷◌, Text, codes, text_eq, Result, ok, err, ◌>>=◌,
  if◌then◌else◌,
}
use vyse.Prelude.Int.{ℤ}
use vyse.Clock.{DateTime}

pub record QueryLog (F : Type 0) : Type 0 where
  pub id : Text
  pub session_id_hash : Text
  pub timestamp : DateTime
  pub prompt_hash : Text
  pub tier : ℤ
  pub hybrid_score : F
  pub v_score : F
  pub d_score : F
  pub e_score : F
  pub a_score : F
  pub intent_flagged : Bool
  pub intent_label : Option Text
  pub noise_applied : Bool
  pub noise_steps : Option Text
  pub request_id : Text

-- A value that is bound to a placeholder, or read from a column.
pub data Value (F : Type 0) : Type 0 where
  uuid : Text → Value F
  varchar : Text → Value F
  timestamptz : DateTime → Value F
  int4 : ℤ → Value F
  float4 : F → Value F
  boolean : Bool → Value F
  nullable : Option Text → Value F
  jsonb : Option Text → Value F

-- A row, as the names of its columns with their values.
abbrev pub Row : Type 0 → Type 0
Row F = List (Text × Value F)

-- `INSERT INTO table (columns) VALUES (values)`, and `SELECT columns FROM table ORDER BY column DESC
-- LIMIT limit`; `column_decode` is the error of a row that does not have the fields' types.
pub record Postgres (F E P : Type 0) : Type 0 where
  pub insert_into : P → Text → Row F → Result E P
  pub select_from : P → Text → List Text → Text → ℤ → Result E (List (Row F))
  pub column_decode : E

abbrev pub table : Text
table = codes "query_logs"

-- The columns that `list_recent` selects, in its order.
abbrev pub columns : List Text
columns =
    codes "id"
    ∷ codes "session_id_hash"
    ∷ codes "timestamp"
    ∷ codes "prompt_hash"
    ∷ codes "tier"
    ∷ codes "hybrid_score"
    ∷ codes "v_score"
    ∷ codes "d_score"
    ∷ codes "e_score"
    ∷ codes "a_score"
    ∷ codes "intent_flagged"
    ∷ codes "intent_label"
    ∷ codes "noise_applied"
    ∷ codes "noise_steps"
    ∷ codes "request_id"
    ∷ []

module _ {F : Type 0} where
  -- The columns of the statement of `insert`, each with what is bound to its placeholder.
  unfoldable pub bindings : QueryLog F → Row F
  bindings log =
      (codes "id", uuid log.id)
      ∷ (codes "session_id_hash", varchar log.session_id_hash)
      ∷ (codes "timestamp", timestamptz log.timestamp)
      ∷ (codes "prompt_hash", varchar log.prompt_hash)
      ∷ (codes "tier", int4 log.tier)
      ∷ (codes "hybrid_score", float4 log.hybrid_score)
      ∷ (codes "v_score", float4 log.v_score)
      ∷ (codes "d_score", float4 log.d_score)
      ∷ (codes "e_score", float4 log.e_score)
      ∷ (codes "a_score", float4 log.a_score)
      ∷ (codes "intent_flagged", boolean log.intent_flagged)
      ∷ (codes "intent_label", nullable log.intent_label)
      ∷ (codes "noise_applied", boolean log.noise_applied)
      ∷ (codes "noise_steps", jsonb log.noise_steps)
      ∷ (codes "request_id", varchar log.request_id)
      ∷ []

  -- `QueryLog` from a row of `list_recent`
  unfoldable pub from_row : Row F → Option (QueryLog F)
  from_row
        ((_, uuid id)
          ∷ (_, varchar session_id_hash)
          ∷ (_, timestamptz timestamp)
          ∷ (_, varchar prompt_hash)
          ∷ (_, int4 tier)
          ∷ (_, float4 hybrid_score)
          ∷ (_, float4 v_score)
          ∷ (_, float4 d_score)
          ∷ (_, float4 e_score)
          ∷ (_, float4 a_score)
          ∷ (_, boolean intent_flagged)
          ∷ (_, nullable intent_label)
          ∷ (_, boolean noise_applied)
          ∷ (_, jsonb noise_steps)
          ∷ (_, varchar request_id)
          ∷ []) =
      some (record {
        id = id;
        session_id_hash = session_id_hash;
        timestamp = timestamp;
        prompt_hash = prompt_hash;
        tier = tier;
        hybrid_score = hybrid_score;
        v_score = v_score;
        d_score = d_score;
        e_score = e_score;
        a_score = a_score;
        intent_flagged = intent_flagged;
        intent_label = intent_label;
        noise_applied = noise_applied;
        noise_steps = noise_steps;
        request_id = request_id;
      })
  from_row _ = none

module _ {F E P : Type 0} (pg : Postgres F E P) where
  unfoldable pub insert : P → QueryLog F → Result E P
  insert pool log = pg.insert_into pool table (bindings log)

  abbrev pub decoded : Option (QueryLog F) → Result E (QueryLog F)
  decoded none = err pg.column_decode
  decoded (some log) = ok log

  unfoldable pub read_rows : List (Row F) → Result E (List (QueryLog F))
  unfolding from_row
  read_rows [] = ok []
  read_rows (row ∷ rows) = do log ← decoded (from_row row); logs ← read_rows rows; ok (log ∷ logs)

  unfoldable pub list_recent : P → ℤ → Result E (List (QueryLog F))
  list_recent pool limit = do
    rows ← pg.select_from pool table columns (codes "timestamp") limit
    read_rows rows
