-- ===== src/Pipelines/Query/Serving.antt =====
-- The requests that src/gateway/http/routes.rs and src/gateway/grpc/service.rs hand to one
-- `AppState`, once their text is accepted: SQL, a question for the semantic pipeline, or one for the
-- router of src/pipelines/query/router.rs.
--
-- As in Pipelines/Query/Concurrent, a request is the point its future is at. The SQL engine executes
-- a text in one step; the routed question passes through the steps of the pipeline it is sent to.
pub mod Steps
pub mod Safety
pub mod Rest
pub mod Alone
pub mod Cached
use rust_enterprise_query_en.Common.{
  ℕ, zero, suc, Bool, true, false, List, map, collect, Option, none, some, Result, ok, err, ◌>>=◌,
  map_err, if◌then◌else◌,
}
use rust_enterprise_query_en.Common.Text.{Text, codes, text_eq}
use rust_enterprise_query_en.Common.Floats.{Floats}
use rust_enterprise_query_en.Common.Interleaving.{Machine}
use rust_enterprise_query_en.Engines.AstGuard.{SqlParser}
use rust_enterprise_query_en.Engines.Sql.{
  SqlEngine, execute_sql_query, record_batches_to_json_lines,
}
use rust_enterprise_query_en.Engines.Sql as Sql
use rust_enterprise_query_en.Pipelines.Types.{SemanticQueryResult}
use rust_enterprise_query_en.Pipelines.Firewall.{parse_llm_json}
use rust_enterprise_query_en.Pipelines.Ollama.{LlmError, unreachable, pause, read_response}
use rust_enterprise_query_en.Pipelines.Prompts.{build_routing_prompt, build_sql_prompt}
use rust_enterprise_query_en.Pipelines.Query.{Services, Error}
use rust_enterprise_query_en.Pipelines.Query.Concurrent.{Pc, begun, finished, advance}
use rust_enterprise_query_en.Pipelines.Query.Router.{
  Dispatch, DispatchError, Full, RoutedQueryResult, sql_result, semantic_result, semantic_fallback,
  semantic_failed, llm_failed, not_parsed, sql_failed, lines_failed, value_failed, route_of,
}

-- The doors: `/query`, the semantic queries of both servers, and their SQL queries.
pub data Door : Type 0 where
  by_router by_semantic by_sql : Door

-- What the router asks the model for.
pub data RouterPurpose : Type 0 where
  to_route to_write_sql : RouterPurpose

-- What becomes of the result of the semantic pipeline.
pub data Wrap : Type 0 where
  as_result as_fallback as_answer : Wrap

unfoldable pub router_prompt : Text → RouterPurpose → Text
router_prompt query to_route = build_routing_prompt query
router_prompt query to_write_sql = build_sql_prompt query

module _ {fl : Floats} {services : Services fl} {parser : SqlParser} {engine : SqlEngine}
    {V : Type 0} (d : Dispatch fl services parser engine V) where
  open services use {client}

  -- What a door gives its handler.
  pub data Reply : Type 0 where
    routed : Result (DispatchError fl services parser engine V) (RoutedQueryResult V) → Reply
    answered : Result (Error fl services) SemanticQueryResult → Reply
    rows : Result (Sql.Error parser engine) (List engine.RecordBatch) → Reply

  -- Where a request is: before the pause or the sending of an attempt, before the execution of the
  -- text that the model has written or that was given, in the semantic pipeline, or at its end.
  pub data Task : Type 0 where
    prompting : RouterPurpose → (attempt left : ℕ) → Option client.HttpError → Task
    posting : RouterPurpose → (attempt left : ℕ) → Option client.HttpError → Task
    executing_generated : Text → Task
    executing : Task
    inside : Wrap → Pc fl services → Task
    done : Reply → Task

  abbrev pub prompt : RouterPurpose → Task
  prompt purpose = prompting purpose 0 2 none

  unfoldable pub reply_of : Wrap → Result (Error fl services) SemanticQueryResult → Reply
  reply_of as_result r = routed (map_err semantic_failed r >>= λ res. ok (semantic_result res))
  reply_of as_fallback r = routed (map_err semantic_failed r >>= λ res. ok (semantic_fallback res))
  reply_of as_answer r = answered r

  -- A request in the semantic pipeline is at its end when the pipeline is.
  unfoldable pub enter : Wrap → Pc fl services → Task
  enter wrap (finished r) = done (reply_of wrap r)
  enter wrap pc = inside wrap pc

  unfoldable pub routed_rows :
      Text → Result (Sql.Error parser engine) (List engine.RecordBatch) → Reply
  routed_rows generated_sql executed = routed (do
    batches ← map_err sql_failed executed
    lines ← map_err lines_failed (record_batches_to_json_lines engine batches)
    results ← map_err value_failed (collect (map d.value_from_str lines))
    ok (sql_result generated_sql results))

  -- What the router does with the reply of the model.
  unfoldable pub after_prompt : RouterPurpose → Result (LlmError client.HttpError) Text → Task
  after_prompt to_route (err _) = inside as_fallback begun
  after_prompt to_route (ok raw_json) =
      if text_eq (route_of d raw_json) (codes "SQL")
      then prompt to_write_sql
      else inside as_result begun
  after_prompt to_write_sql (err e) = done (routed (err (llm_failed e)))
  after_prompt to_write_sql (ok raw) = elim (parse_llm_json d.sql_from_str raw) [
    | err e ↦ done (routed (err (not_parsed e)))
    | ok response ↦ executing_generated response.query
  ]

  unfoldable pub after_post :
      RouterPurpose → (attempt left : ℕ) → Result client.HttpError client.Response → Task
  after_post purpose attempt left (ok res) = after_prompt purpose (read_response client res)
  after_post purpose attempt left (err e) = prompting purpose (suc attempt) left (some e)

  unfoldable pub begin : Door × Text → Task
  begin (by_router, query) = prompt to_route
  begin (by_semantic, query) = inside as_answer begun
  begin (by_sql, query) = executing

  -- One step of a request, at the time `now`.
  unfoldable pub progress :
      ℕ
      → Door × Text
      → Full fl services parser engine V
      → Task
      → Full fl services parser engine V × Task
  progress now (door, query) s (prompting purpose attempt zero last_err) =
      (s, after_prompt purpose (err (unreachable last_err)))
  progress now (door, query) s (prompting purpose attempt (suc left) last_err) = (
    record s { rest = record s.rest { llm = pause client attempt s.rest.llm } },
    posting purpose attempt left last_err,
  )
  progress now (door, query) s (posting purpose attempt left last_err) =
      let out = client.post s.rest.llm (router_prompt query purpose) in
      (record s { rest = record s.rest { llm = out.0 } }, after_post purpose attempt left out.1)
  progress now (door, query) s (executing_generated generated_sql) =
      let out = execute_sql_query parser engine d.max_sql_rows s.sql generated_sql in
      (record s { sql = out.0 }, done (routed_rows generated_sql out.1))
  progress now (door, query) s executing =
      let out = execute_sql_query parser engine d.max_sql_rows s.sql query in
      (record s { sql = out.0 }, done (rows out.1))
  progress now (door, query) s (inside wrap pc) =
      let out = advance fl services now query s.rest pc in
      (record s { rest = out.0 }, enter wrap out.1)
  progress now (door, query) s (done reply) = (s, done reply)

  abbrev pub is_done : Task → Bool
  is_done (done reply) = true
  is_done _ = false

  -- The whole server. Others may change the state of the model client at any time.
  abbrev pub doors : Machine
  doors = record {
    Input = Door × Text;
    Shared = Full fl services parser engine V;
    Local = Task;
    begin = begin;
    at_end = is_done;
    advance = progress;
    Outside = client.World;
    outside = λ w s. record s { rest = record s.rest { llm = w } };
  }
