-- ===== src/Pipelines/Query/Serving/Rest.antt =====
-- What is left to do for a request of src/gateway/http/routes.rs or src/gateway/grpc/service.rs, in
-- terms of the sequential code.
use rust_enterprise_query_en.Common.{
  ℕ, suc, Bool, true, false, List, map, collect, some, Result, ok, err, ◌>>=◌, map_err, ◌≡◌, refl,
  sym, inl, inr, Result-cases, if◌then◌else◌,
}
use rust_enterprise_query_en.Common.Text.{Text, codes, text_eq}
use rust_enterprise_query_en.Common.Floats.{Floats}
use rust_enterprise_query_en.Engines.AstGuard.{SqlParser}
use rust_enterprise_query_en.Engines.Sql.{
  SqlEngine, execute_sql_query, record_batches_to_json_lines,
}
use rust_enterprise_query_en.Engines.Sql as Sql
use rust_enterprise_query_en.Pipelines.Firewall.{parse_llm_json}
use rust_enterprise_query_en.Pipelines.Ollama.{LlmError, attempts, prompt_model, read_response}
use rust_enterprise_query_en.Pipelines.Query.{Services, Times}
use rust_enterprise_query_en.Pipelines.Query.Concurrent.{
  Pc, begun, asking, sending, comparing, storing, finished,
}
use rust_enterprise_query_en.Pipelines.Query.Concurrent.Rest.{rest}
use rust_enterprise_query_en.Pipelines.Query.Router.{
  Dispatch, Full, Answer, RoutedQueryResult, sql_result, semantic_result, sql_failed, lines_failed,
  value_failed, route_of, ask, semantic, execute_generated, run_sql_query, execute_routed_sql,
  dispatch_routed,
}
use rust_enterprise_query_en.Pipelines.Query.Serving.{
  RouterPurpose, to_route, to_write_sql, Wrap, as_result, router_prompt, Task, Reply, routed, rows,
  prompting, posting, executing_generated, executing, inside, done, prompt, reply_of, enter,
  routed_rows, after_prompt, after_post,
}

module _ {fl : Floats} {services : Services fl} {parser : SqlParser} {engine : SqlEngine}
    {V : Type 0} (d : Dispatch fl services parser engine V) (times : Times) where
  open services use {client}

  abbrev pub Served : Type 0
  Served = Full fl services parser engine V × Reply d

  module _ (query : Text) where
    abbrev pub wrapped : Full fl services parser engine V → Wrap → Pc fl services → Served
    wrapped s wrap pc =
        let out = rest fl services times query s.rest pc in
        (record s { rest = out.0 }, reply_of d wrap out.1)

    -- What the router does with the rows of a generated text.
    abbrev pub listed : Answer d (Text × List engine.RecordBatch) → Served
    listed (s, r) = (
      s,
      routed (do
        (generated_sql, batches) ← r
        lines ← map_err lines_failed (record_batches_to_json_lines engine batches)
        results ← map_err value_failed (collect (map d.value_from_str lines))
        ok (sql_result generated_sql results)),
    )

    abbrev pub on_prompt :
        Full fl services parser engine V
        → RouterPurpose
        → Result (LlmError client.HttpError) Text
        → Served
    on_prompt s to_route reply =
        let out = dispatch_routed d times query s reply in (out.0, routed out.1)
    on_prompt s to_write_sql reply = listed (execute_generated d s reply)

    abbrev pub with_llm :
        Full fl services parser engine V → client.World → Full fl services parser engine V
    with_llm s w = record s { rest = record s.rest { llm = w } }

    unfoldable pub on_post :
        Full fl services parser engine V
        → RouterPurpose
        → (attempt left : ℕ) → Result client.HttpError client.Response
        → Served
    on_post s purpose attempt left (ok res) = on_prompt s purpose (read_response client res)
    on_post s purpose attempt left (err e) =
        let out =
          attempts client (suc attempt) left (some e) (router_prompt query purpose) s.rest.llm in
        on_prompt (with_llm s out.0) purpose out.1

    -- What is left to do for the sequential code.
    unfoldable pub remains : Full fl services parser engine V → Task d → Served
    remains s (prompting purpose attempt left last_err) =
        let out = attempts client attempt left last_err (router_prompt query purpose) s.rest.llm in
        on_prompt (with_llm s out.0) purpose out.1
    remains s (posting purpose attempt left last_err) =
        let out = client.post s.rest.llm (router_prompt query purpose) in
        on_post (with_llm s out.0) purpose attempt left out.1
    remains s (executing_generated generated_sql) =
        let out = execute_sql_query parser engine d.max_sql_rows s.sql generated_sql in
        (record s { sql = out.0 }, routed_rows d generated_sql out.1)
    remains s executing =
        let out = execute_sql_query parser engine d.max_sql_rows s.sql query in
        (record s { sql = out.0 }, rows out.1)
    remains s (inside wrap pc) = wrapped s wrap pc
    remains s (done reply) = (s, reply)

    pub remains-enter :
        (s : Full fl services parser engine V) (wrap : Wrap) (pc : Pc fl services)
        → remains s (enter d wrap pc) ≡ wrapped s wrap pc
    unfolding remains enter rest
    remains-enter s wrap begun = refl
    remains-enter s wrap (asking purpose attempt left last_err) = refl
    remains-enter s wrap (sending purpose attempt left last_err) = refl
    remains-enter s wrap (comparing parsed v) = refl
    remains-enter s wrap (storing v payload bytes) = refl
    remains-enter s wrap (finished r) = refl

    -- The two ways of the router.
    remains-route :
        (s : Full fl services parser engine V) (is_sql : Bool)
        → remains s (if is_sql then prompt d to_write_sql else inside as_result begun) ≡ (
            let out : Answer d (RoutedQueryResult V) =
              if is_sql
              then execute_routed_sql d query s
              else semantic d times semantic_result query s in
            (out.0, routed out.1))
    unfolding remains semantic reply_of rest execute_routed_sql run_sql_query ask prompt_model
        router_prompt
    remains-route s true = refl
    remains-route s false = refl

    -- The rows of a text that was executed.
    listed-rows :
        (s : Full fl services parser engine V) (generated_sql : Text)
        (executed : Result (Sql.Error parser engine) (List engine.RecordBatch))
        → listed (s, map_err sql_failed executed >>= λ batches. ok (generated_sql, batches))
          ≡ (s, routed_rows d generated_sql executed)
    unfolding routed_rows
    listed-rows s generated_sql (ok batches) = refl
    listed-rows s generated_sql (err e) = refl

    pub remains-after_prompt :
        (s : Full fl services parser engine V) (purpose : RouterPurpose)
        (reply : Result (LlmError client.HttpError) Text)
        → remains s (after_prompt d purpose reply) ≡ on_prompt s purpose reply
    unfolding after_prompt remains dispatch_routed semantic reply_of rest execute_generated
    remains-after_prompt s to_route (err e) = refl
    remains-after_prompt s to_route (ok raw) =
        remains-route s (text_eq (route_of d raw) (codes "SQL"))
    remains-after_prompt s to_write_sql (err e) = refl
    remains-after_prompt s to_write_sql (ok raw) =
        elim (Result-cases (parse_llm_json d.sql_from_str raw)) [
          | inl (response, e) ↦
              let out = execute_sql_query parser engine d.max_sql_rows s.sql response.query in
              rw (e, remains, execute_generated)
                (sym (listed-rows (record s { sql = out.0 }) response.query out.1))
          | inr (f, e) ↦ rw (e, remains, execute_generated) refl
        ]

    pub remains-after_post :
        (s : Full fl services parser engine V) (purpose : RouterPurpose) (attempt left : ℕ)
        (response : Result client.HttpError client.Response)
        → remains s (after_post d purpose attempt left response)
          ≡ on_post s purpose attempt left response
    unfolding remains after_post on_post
    remains-after_post s purpose attempt left (ok res) =
        remains-after_prompt s purpose (read_response client res)
    remains-after_post s purpose attempt left (err e) = refl

    -- A round of the loop, with its pause done.
    pub posting-on_prompt :
        (s : Full fl services parser engine V) (purpose : RouterPurpose) (attempt left : ℕ)
        (w : client.World) (response : Result client.HttpError client.Response)
        → (let out : client.World × Result (LlmError client.HttpError) Text = elim response [
          | ok res ↦ (w, read_response client res)
          | err e ↦ attempts client (suc attempt) left (some e) (router_prompt query purpose) w
        ] in
            on_post (with_llm s w) purpose attempt left response
            ≡ on_prompt (with_llm s out.0) purpose out.1)
    unfolding on_post
    posting-on_prompt s purpose attempt left w (ok res) = refl
    posting-on_prompt s purpose attempt left w (err e) = refl
