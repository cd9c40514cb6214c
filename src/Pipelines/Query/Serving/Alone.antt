-- ===== src/Pipelines/Query/Serving/Alone.antt =====
-- A request of src/gateway/http/routes.rs or src/gateway/grpc/service.rs that no other interrupts,
-- against the sequential code of its door.
use mathlib.Core.Path.{subst}
use rust_enterprise_query_en.Common.{ℕ, zero, suc, ◌≤◌, err, ◌≡◌, refl, ap, ◌∙◌, arith}
use rust_enterprise_query_en.Common.Text.{Text}
use rust_enterprise_query_en.Common.Floats.{Floats}
use rust_enterprise_query_en.Common.Interleaving.{alone}
use rust_enterprise_query_en.Common.Interleaving.Laws.{alone-rest}
use rust_enterprise_query_en.Engines.AstGuard.{SqlParser}
use rust_enterprise_query_en.Engines.Sql.{SqlEngine, execute_sql_query}
use rust_enterprise_query_en.Pipelines.Ollama.{attempts, prompt_model, unreachable, pause}
use rust_enterprise_query_en.Pipelines.Query.{Services, Times, run_semantic_pipeline}
use rust_enterprise_query_en.Pipelines.Query.Concurrent.{advance}
use rust_enterprise_query_en.Pipelines.Query.Concurrent.Rest.{rest}
use rust_enterprise_query_en.Pipelines.Query.Concurrent.Alone.{clock, rest-advance}
use rust_enterprise_query_en.Pipelines.Query.Router.{Dispatch, Full, ask, run_routed_pipeline}
use rust_enterprise_query_en.Pipelines.Query.Serving.{
  Door, by_router, by_semantic, by_sql, router_prompt, Task, routed, answered, rows, prompting,
  posting, executing_generated, executing, inside, done, reply_of, begin, progress, doors,
}
use rust_enterprise_query_en.Pipelines.Query.Serving.Steps.{
  remaining, done_or, begin-remaining, progress-remaining,
}
use rust_enterprise_query_en.Pipelines.Query.Serving.Rest.{
  Served, remains, with_llm, remains-enter, remains-after_prompt, remains-after_post,
  posting-on_prompt,
}

module _ {fl : Floats} {services : Services fl} {parser : SqlParser} {engine : SqlEngine}
    {V : Type 0} (d : Dispatch fl services parser engine V) (times : Times) where
  open services use {client}

  -- What the handler of a door calls, in one go.
  unfoldable pub serve : Door × Text → Full fl services parser engine V → Served d times
  serve (by_router, query) s =
      let out = run_routed_pipeline d times query s in (out.0, routed out.1)
  serve (by_semantic, query) s =
      let out = run_semantic_pipeline fl services times s.rest query in
      (record s { rest = out.0 }, answered out.1)
  serve (by_sql, query) s =
      let out = execute_sql_query parser engine d.max_sql_rows s.sql query in
      (record s { sql = out.0 }, rows out.1)

  -- The time that a step reads, of the three that a run of the pipeline is given.
  unfoldable pub server_clock : Task d → ℕ
  server_clock (inside wrap pc) = clock fl services times pc
  server_clock _ = times.at_insert

  module _ (query : Text) where
    -- A step leaves the same to do.
    remains-progress :
        (door : Door) (s : Full fl services parser engine V) (t : Task d)
        → (let out = progress d (server_clock t) (door, query) s t in
            remains d times query out.0 out.1)
          ≡ remains d times query s t
    unfolding progress server_clock remains attempts
    remains-progress door s (prompting purpose attempt zero last_err) =
        remains-after_prompt d times query s purpose (err (unreachable last_err))
    remains-progress door s (prompting purpose attempt (suc left) last_err) =
        let out = client.post (pause client attempt s.rest.llm) (router_prompt query purpose) in
        posting-on_prompt d times query s purpose attempt left out.0 out.1
    remains-progress door s (posting purpose attempt left last_err) =
        let out = client.post s.rest.llm (router_prompt query purpose) in
        remains-after_post d times query (with_llm d times query s out.0) purpose attempt left out.1
    remains-progress door s (executing_generated generated_sql) = refl
    remains-progress door s executing = refl
    remains-progress door s (inside wrap pc) =
        let out = advance fl services (clock fl services times pc) query s.rest pc in
        let s' : Full fl services parser engine V = record s { rest = out.0 } in
        remains-enter d times query s' wrap out.1
        ∙ ap (λ o. (record s { rest = o.0 }, reply_of d wrap o.1))
            (rest-advance fl services times query s.rest pc)
    remains-progress door s (done reply) = refl

    remains-begin :
        (door : Door) (s : Full fl services parser engine V)
        → remains d times query s (begin d (door, query)) ≡ serve (door, query) s
    unfolding remains begin serve rest run_routed_pipeline reply_of ask prompt_model router_prompt
    remains-begin by_router s = refl
    remains-begin by_semantic s = refl
    remains-begin by_sql s = refl

  -- A request of any door that no other interrupts takes at most twenty-four steps to its end. With
  -- the times that a run of the sequential code reads, it leaves the states that the run leaves, of
  -- the client, the cache and the SQL engine, and its reply is what the run returns.
  pub alone-serve :
      (n : ℕ) (input : Door × Text) (s : Full fl services parser engine V)
      → 24 ≤ n
      → (let out = serve input s in
          alone (doors d) n server_clock input s (begin d input) ≡ (out.0, done out.1))
  unfolding remains progress
  alone-serve n (door, query) s h =
      subst
        (λ o.
          alone (doors d) n server_clock (door, query) s (begin d (door, query)) ≡ (o.0, done o.1))
        (remains-begin query door s)
        (alone-rest (doors d) (remaining d) 24 (begin-remaining d) (progress-remaining d)
          server_clock (door, query) (remains d times query) done (remains-progress query door)
          (done_or d) (λ s r. (refl, refl)) n s (begin d (door, query))
          (let bound = begin-remaining d (door, query) in omega arith))
