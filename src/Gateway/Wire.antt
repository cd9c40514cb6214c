-- ===== src/Gateway/Wire.antt =====
-- `sql_query_handler` of src/gateway/http/routes.rs: the JSON lines of the rows, framed as an array.
pub mod Laws
use rust_enterprise_query_en.Common.{
  ℕ, Bool, true, false, List, [], ◌∷◌, ◌++◌, Result, ok, err, ◌>>=◌, map_err, if◌then◌else◌, Option,
}
use rust_enterprise_query_en.Common.Text.{Text, codes, is_empty, split_on}
use rust_enterprise_query_en.Engines.AstGuard.{SqlParser}
use rust_enterprise_query_en.Engines.Sql.{
  SqlEngine, Error, engine_failed, strip_cr, execute_sql_query,
}
use rust_enterprise_query_en.Gateway.Requests.{
  StatusCode, bad_request, internal_server_error, Failure, refused, failed, validate_query_str,
}

-- The loop over the lines, with the flag `first` and what is in the buffer so far.
unfoldable pub push_lines : Bool → Text → List Text → Text
push_lines first buffer [] = buffer
push_lines first buffer (line ∷ lines) =
    let trimmed = strip_cr line in
    if is_empty trimmed
    then push_lines first buffer lines
    else push_lines false (buffer ++ ((if first then [] else 44 ∷ []) ++ trimmed)) lines

-- `[`, the lines with commas between them, `]`.
unfoldable pub frame : Text → Text
frame raw_lines = push_lines true (91 ∷ []) (split_on 10 raw_lines) ++ (93 ∷ [])

module _ (parser : SqlParser) (engine : SqlEngine) where
  abbrev pub HandlerError : Type 0
  HandlerError = StatusCode × Failure (Error parser engine)

  unfoldable pub serialize : List engine.RecordBatch → Result HandlerError Text
  serialize batches =
      map_err
        (λ e. (internal_server_error, failed (codes "Serialization Error: ") (engine_failed e)))
        (engine.write_json_lines batches)

  -- What follows the execution of the query.
  unfoldable pub respond :
      engine.State × Result (Error parser engine) (List engine.RecordBatch)
      → engine.State × Result HandlerError Text
  respond (s, executed) = (
    s,
    map_err (λ e. (bad_request, failed (codes "SQL Execution Error: ") e)) executed >>= λ batches.
        serialize batches >>= λ raw. ok (frame raw),
  )

  unfoldable pub run_accepted :
      Option ℕ → engine.State → Result HandlerError Text → engine.State × Result HandlerError Text
  run_accepted setting s (err e) = (s, err e)
  run_accepted setting s (ok query) = respond (execute_sql_query parser engine setting s query)

  unfoldable pub sql_query_handler :
      Option ℕ → ℕ → engine.State → Text → engine.State × Result HandlerError Text
  sql_query_handler setting max_chars s query =
      run_accepted setting s
        (map_err (λ e. (e.0, refused e.1)) (validate_query_str query (codes "SQL query") max_chars))
