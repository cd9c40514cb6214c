-- ===== src/Pipelines/Query/Router.antt =====
-- src/pipelines/query/router.rs, intent.rs, and the SQL side of src/pipelines/query/mod.rs: the
-- dispatch of a question to SQL or to the semantic pipeline. A JSON value is what its parser gives.
pub mod Guarding
pub mod Agreement
use rust_enterprise_query_en.Common.{
  ℕ, Bool, false, ◌&&◌, ◌||◌, ◌==◌, List, [], ◌∷◌, Option, Result, ok, err, ◌>>=◌, map_err, map,
  collect, if◌then◌else◌,
}
use rust_enterprise_query_en.Common.Text.{Text, codes, text_eq}
use rust_enterprise_query_en.Common.Floats.{Floats}
use rust_enterprise_query_en.Engines.AstGuard.{SqlParser}
use rust_enterprise_query_en.Engines.Sql.{
  SqlEngine, execute_sql_query, record_batches_to_json_lines,
}
use rust_enterprise_query_en.Engines.Sql as Sql
use rust_enterprise_query_en.Pipelines.Types.{
  ParsedQuestion, RouterDecision, SqlResponse, SemanticQueryResult,
}
use rust_enterprise_query_en.Pipelines.Firewall.{FirewallError, parse_llm_json}
use rust_enterprise_query_en.Pipelines.Ollama.{LlmError, prompt_model}
use rust_enterprise_query_en.Pipelines.Prompts.{
  build_routing_prompt, build_sql_prompt, build_question_parser_prompt,
}
use rust_enterprise_query_en.Pipelines.Query.{Services, Times, Error, State, run_semantic_pipeline}

pub data RoutedQueryResult (V : Type 0) : Type 0 where
  sql_result : (generated_sql : Text) (results : List V) → RoutedQueryResult V
  semantic_result : SemanticQueryResult → RoutedQueryResult V
  semantic_fallback : SemanticQueryResult → RoutedQueryResult V

pub data QueryOutput : Type 0 where
  sql_lines : List Text → QueryOutput
  semantic_output : SemanticQueryResult → QueryOutput

-- `to_uppercase()` of a route is `SQL`: beside the ASCII letters, U+017F becomes an `S`.
unfoldable pub uppercase_is_sql : Text → Bool
uppercase_is_sql (a ∷ b ∷ c ∷ []) =
    (a == 83 || (a == 115 || a == 383)) && ((b == 81 || b == 113) && (c == 76 || c == 108))
uppercase_is_sql _ = false

module _ (fl : Floats) (services : Services fl) (parser : SqlParser) (engine : SqlEngine)
    (V : Type 0) where
  open services use {client, JsonError}

  -- What the dispatch parses, and the setting `MAX_SQL_ROWS`.
  pub record Dispatch : Type 0 where
    pub decision_from_str : Text → Result JsonError RouterDecision
    pub sql_from_str : Text → Result JsonError SqlResponse
    pub value_from_str : Text → Result JsonError V
    pub max_sql_rows : Option ℕ

  pub data DispatchError : Type 0 where
    semantic_failed : Error fl services → DispatchError
    llm_failed : LlmError client.HttpError → DispatchError
    not_parsed : FirewallError JsonError → DispatchError
    sql_failed : Sql.Error parser engine → DispatchError
    lines_failed : engine.EngineError → DispatchError
    value_failed : JsonError → DispatchError

  pub record Full : Type 0 where
    pub rest : State fl services
    pub sql : engine.State

module _ {fl : Floats} {services : Services fl} {parser : SqlParser} {engine : SqlEngine}
    {V : Type 0} (d : Dispatch fl services parser engine V) where
  open services use {client, JsonError}

  abbrev pub Answer : Type 0 → Type 0
  Answer A = Full fl services parser engine V × Result (DispatchError fl services parser engine V) A

  -- A prompt, with the state of the client afterwards.
  unfoldable pub ask :
      Text
      → Full fl services parser engine V
      → Full fl services parser engine V × Result (LlmError client.HttpError) Text
  ask prompt s =
      let out = prompt_model client prompt s.rest.llm in
      (record s { rest = record s.rest { llm = out.0 } }, out.1)

  unfoldable pub semantic :
      {A : Type 0}
      → Times
      → (SemanticQueryResult → A)
      → Text
      → Full fl services parser engine V
      → Answer A
  semantic times wrap query s =
      let out = run_semantic_pipeline fl services times s.rest query in
      (record s { rest = out.0 }, map_err semantic_failed out.1 >>= λ res. ok (wrap res))

  unfoldable pub execute_generated :
      Full fl services parser engine V
      → Result (LlmError client.HttpError) Text
      → Answer (Text × List engine.RecordBatch)
  execute_generated s (err e) = (s, err (llm_failed e))
  execute_generated s (ok raw) = elim (parse_llm_json d.sql_from_str raw) [
    | err e ↦ (s, err (not_parsed e))
    | ok response ↦
        let out = execute_sql_query parser engine d.max_sql_rows s.sql response.query in
        (
          record s { sql = out.0 },
          map_err sql_failed out.1 >>= λ batches. ok (response.query, batches),
        )
  ]

  -- `run_sql_query`, with the text that was executed.
  unfoldable pub run_sql_query :
      Text → Full fl services parser engine V → Answer (Text × List engine.RecordBatch)
  run_sql_query query s = let out = ask (build_sql_prompt query) s in execute_generated out.0 out.1

  unfoldable pub execute_routed_sql :
      Text → Full fl services parser engine V → Answer (RoutedQueryResult V)
  execute_routed_sql query s =
      let out = run_sql_query query s in
      (
        out.0,
        (do
          (generated_sql, batches) ← out.1
          lines ← map_err lines_failed (record_batches_to_json_lines engine batches)
          results ← map_err value_failed (collect (map d.value_from_str lines))
          ok (sql_result generated_sql results)),
      )

  -- The route of a decision; `SEMANTIC` where the output does not parse.
  unfoldable pub route_of : Text → Text
  route_of raw_json = elim (parse_llm_json d.decision_from_str raw_json) [
    | ok decision ↦ decision.route
    | err _ ↦ codes "SEMANTIC"
  ]

  unfoldable pub dispatch_routed :
      Times
      → Text
      → Full fl services parser engine V
      → Result (LlmError client.HttpError) Text
      → Answer (RoutedQueryResult V)
  dispatch_routed times query s (err _) = semantic times semantic_fallback query s
  dispatch_routed times query s (ok raw_json) =
      if text_eq (route_of raw_json) (codes "SQL")
      then execute_routed_sql query s
      else semantic times semantic_result query s

  unfoldable pub run_routed_pipeline :
      Times → Text → Full fl services parser engine V → Answer (RoutedQueryResult V)
  run_routed_pipeline times query s =
      let out = ask (build_routing_prompt query) s in dispatch_routed times query out.0 out.1

  unfoldable pub classify_intent : Text → Full fl services parser engine V → Answer RouterDecision
  classify_intent user_question s =
      let out = ask (build_routing_prompt user_question) s in
      (
        out.0,
        (do
          raw_response ← map_err llm_failed out.1
          map_err not_parsed (parse_llm_json d.decision_from_str raw_response)),
      )

  unfoldable pub parse_question_intent :
      Text → Full fl services parser engine V → Answer ParsedQuestion
  parse_question_intent user_question s =
      let out = ask (build_question_parser_prompt user_question) s in
      (
        out.0,
        (do
          raw_response ← map_err llm_failed out.1
          map_err not_parsed (parse_llm_json services.question_from_str raw_response)),
      )

  unfoldable pub output_lines : Answer (Text × List engine.RecordBatch) → Answer QueryOutput
  output_lines (s, r) = (
    s,
    (do
      (_, batches) ← r
      lines ← map_err lines_failed (record_batches_to_json_lines engine batches)
      ok (sql_lines lines)),
  )

  unfoldable pub dispatch_query : Times → Text → Answer RouterDecision → Answer QueryOutput
  dispatch_query times query (s, err e) = (s, err e)
  dispatch_query times query (s, ok decision) =
      if uppercase_is_sql decision.route
      then output_lines (run_sql_query query s)
      else semantic times semantic_output query s

  unfoldable pub run_query_pipeline :
      Times → Text → Full fl services parser engine V → Answer QueryOutput
  run_query_pipeline times query s = dispatch_query times query (classify_intent query s)
