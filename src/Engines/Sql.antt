-- ===== src/Engines/Sql.antt =====
-- src/engines/sql.rs: guarded execution of SQL, and the text of the JSON lines. The engine of the
-- crate `datafusion` is a parameter over a state of its own, since a plan may act on it; so is the
-- writer of JSON lines, which gives the bytes written for the batches.
pub mod Laws
use rust_enterprise_query_en.Common.{
  ℕ, ◌+◌, ◌≤◌, Bool, List, [], ◌∷◌, map, Option, none, some, Result, ok, err, ◌>>=◌, map_err, ◌≡◌,
  if◌then◌else◌, ◌==◌,
}
use rust_enterprise_query_en.Common.Text.{Text, codes, trim, split_on, is_empty}
use rust_enterprise_query_en.Engines.AstGuard.{SqlParser, GuardError, validate_sql_is_safe}
use mathlib.Core.Option

-- A SQL engine: `sql` may change its state, and `register_csv` names a file as a table; `limit` skips and fetches; `collect` gives batches.
pub record SqlEngine : Type 1 where
  pub State : Type 0
  pub EngineError : Type 0
  pub DataFrame : Type 0
  pub RecordBatch : Type 0
  -- `SessionContext::new()`
  pub new_session : State
  pub register_csv : State → Text → Text → State × Result EngineError (Unit {0})
  pub sql : State → Text → State × Result EngineError DataFrame
  pub limit : DataFrame → ℕ → Option ℕ → Result EngineError DataFrame
  pub collect : DataFrame → Result EngineError (List RecordBatch)
  pub num_rows : RecordBatch → ℕ
  pub write_json_lines : List RecordBatch → Result EngineError Text

pub data SqlError {ℓ κ} (E : Type ℓ) (G : Type κ) : Type (ℓ ⊔ κ) where
  unsafe : G → SqlError E G
  engine_failed : E → SqlError E G

-- `MAX_SQL_ROWS`, where it is set and is a number.
unfoldable pub max_rows : Option ℕ → ℕ
max_rows setting = Option.get_or setting 10000

module _ (parser : SqlParser) (engine : SqlEngine) where
  open engine use {State, EngineError, DataFrame, RecordBatch, sql, limit, collect}

  abbrev pub Error : Type 0
  Error = SqlError EngineError (GuardError parser.ParseError)

  unfoldable pub collect_limited : Option ℕ → DataFrame → Result Error (List RecordBatch)
  collect_limited setting df =
      map_err engine_failed (limit df 0 (some (max_rows setting)) >>= collect)

  unfoldable pub run_planned :
      Option ℕ → State × Result EngineError DataFrame → State × Result Error (List RecordBatch)
  run_planned setting (s, r) = (s, map_err engine_failed r >>= collect_limited setting)

  unfoldable pub run_validated :
      Option ℕ
      → State
      → Text
      → Result (GuardError parser.ParseError) (Unit {0})
      → State × Result Error (List RecordBatch)
  run_validated setting s query (err e) = (s, err (unsafe e))
  run_validated setting s query (ok _) = run_planned setting (sql s query)

  unfoldable pub execute_sql_query :
      Option ℕ → State → Text → State × Result Error (List RecordBatch)
  execute_sql_query setting s query =
      run_validated setting s query (validate_sql_is_safe parser query)

unfoldable pub registered {ℓ κ} : {S : Type ℓ} {E : Type κ} → S × Result E (Unit {0}) → Result E S
registered (s, ok _) = ok s
registered (s, err e) = err e

-- The argument is the setting `CSV_PATH`.
unfoldable pub init_datafusion :
    (engine : SqlEngine) → Option Text → Result engine.EngineError engine.State
init_datafusion engine setting = registered (
    engine.register_csv engine.new_session (codes "kna1")
      (Option.get_or setting (codes "data/kna1.csv")))

-- `str::lines`, on the pieces of `split('\n')`: the last piece is no line if it is empty, and a
-- line loses one carriage return at its end.
unfoldable pub strip_cr : Text → Text
strip_cr [] = []
strip_cr (c ∷ []) = if c == 13 then [] else c ∷ []
strip_cr (c ∷ d ∷ s) = c ∷ strip_cr (d ∷ s)

unfoldable pub lines_of_pieces : List Text → List Text
lines_of_pieces [] = []
lines_of_pieces (piece ∷ []) = if is_empty piece then [] else strip_cr piece ∷ []
lines_of_pieces (piece ∷ next ∷ pieces) = strip_cr piece ∷ lines_of_pieces (next ∷ pieces)

unfoldable pub lines : Text → List Text
lines s = lines_of_pieces (split_on 10 s)

-- `filter(|l| !l.is_empty())`
unfoldable pub non_empty : List Text → List Text
non_empty [] = []
non_empty (s ∷ rest) = if is_empty s then non_empty rest else s ∷ non_empty rest

-- The lines of `record_batches_to_json_lines`, from what the writer wrote.
unfoldable pub json_lines : Text → List Text
json_lines raw_text = non_empty (map trim (lines raw_text))

-- `String::from_utf8` succeeds on what the writer writes, which is text already.
unfoldable pub record_batches_to_json_lines :
    (engine : SqlEngine) → List engine.RecordBatch → Result engine.EngineError (List Text)
record_batches_to_json_lines engine batches = do
  raw_text ← engine.write_json_lines batches
  ok (json_lines raw_text)
