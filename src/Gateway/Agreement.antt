-- ===== src/Gateway/Agreement.antt =====
-- The two doors for SQL, `sql_query_handler` of src/gateway/http/routes.rs and `execute_sql` of
-- src/gateway/grpc/service.rs, on the same query.
use rust_enterprise_query_en.Common.{
  ℕ, Option, Result, ok, err, ◌≡◌, refl, inl, inr, Result-cases, List,
}
use rust_enterprise_query_en.Common.Text.{Text, codes}
use rust_enterprise_query_en.Engines.AstGuard.{SqlParser}
use rust_enterprise_query_en.Engines.Sql.{SqlEngine, Error, execute_sql_query}
use rust_enterprise_query_en.Gateway.Requests.{
  StatusCode, bad_request, internal_server_error, GrpcCode, invalid_argument, internal, Failure,
}
use rust_enterprise_query_en.Gateway.Requests.Laws.{grpc_guards-validate_query_str}
use rust_enterprise_query_en.Gateway.Wire.{
  frame, serialize, respond, run_accepted, sql_query_handler,
}
use rust_enterprise_query_en.Gateway.Grpc.{
  SqlQueryResponse, sql_response, reply, execute_accepted, execute_sql,
}

-- The status of HTTP for a code of gRPC.
abbrev pub status_of : GrpcCode → StatusCode
status_of invalid_argument = bad_request
status_of internal = internal_server_error

module _ (parser : SqlParser) (engine : SqlEngine) where
  -- What HTTP answers where gRPC replies so: the lines framed as an array, or the same failure with
  -- the status for its code.
  abbrev pub over_http :
      Result (GrpcCode × Failure (Error parser engine)) SqlQueryResponse
      → Result (StatusCode × Failure (Error parser engine)) Text
  over_http (ok response) = ok (frame response.json_lines)
  over_http (err (code, failure)) = err (status_of code, failure)

  abbrev pub Agree :
      engine.State × Result (StatusCode × Failure (Error parser engine)) Text
      → engine.State × Result (GrpcCode × Failure (Error parser engine)) SqlQueryResponse
      → Type 0
  Agree (s, answer) (t, response) = (s ≡ t) × (answer ≡ over_http response)

  executed-Agree :
      (out : engine.State × Result (Error parser engine) (List engine.RecordBatch))
      → Agree (respond parser engine out) (reply parser engine out)
  unfolding respond reply serialize sql_response
  executed-Agree (s, err e) = (refl, refl)
  executed-Agree (s, ok batches) = elim (Result-cases (engine.write_json_lines batches)) [
    | inl (lines, e) ↦ rw e (refl, refl)
    | inr (f, e) ↦ rw e (refl, refl)
  ]

  -- The two doors for SQL leave the engine in the same state on the same query, and they answer the
  -- same: a query is refused by both, with the same message; fails at both, with the same failure,
  -- as 400 where gRPC says invalid argument and as 500 where it says internal; or succeeds at both,
  -- and the body over HTTP frames the JSON lines that gRPC replies.
  pub sql_doors-Agree :
      (setting : Option ℕ) (max_chars : ℕ) (s : engine.State) (query : Text)
      → Agree
          (sql_query_handler parser engine setting max_chars s query)
          (execute_sql parser engine setting max_chars s query)
  unfolding sql_query_handler execute_sql run_accepted execute_accepted
  sql_doors-Agree setting max_chars s query =
      let (same, outcome) = grpc_guards-validate_query_str query (codes "SQL query") max_chars in
      elim outcome [
        | inl (trimmed, e) ↦
            rw (same, e) (executed-Agree (execute_sql_query parser engine setting s trimmed))
        | inr (why, e) ↦ rw (same, e) (refl, refl)
      ]
