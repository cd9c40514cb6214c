-- ===== src/Pipelines/Query/Serving/Safety.antt =====
-- What interleaved requests of src/gateway/http/routes.rs and src/gateway/grpc/service.rs can answer,
-- and what they can do to the SQL engine.
use rust_enterprise_query_en.Common.{
  ℕ, zero, suc, List, ◌>>=◌, map_err, map, collect, Result, ok, err, ◌≡◌, inl, inr, All, All-map,
  Result-cases, if_keeps,
}
use rust_enterprise_query_en.Common.Text.{Text, codes, text_eq}
use rust_enterprise_query_en.Common.Floats.{Floats}
use rust_enterprise_query_en.Common.Interleaving.{System, Reach}
use rust_enterprise_query_en.Common.Interleaving.Laws.{Reach-keeps}
use rust_enterprise_query_en.Engines.AstGuard.{SqlParser}
use rust_enterprise_query_en.Engines.Sql.{SqlEngine, record_batches_to_json_lines}
use rust_enterprise_query_en.Engines.Sql as Sql
use rust_enterprise_query_en.Engines.Sql.Laws.{Reached, nothing}
use rust_enterprise_query_en.Pipelines.Types.{SemanticResponse, SemanticQueryResult, verified}
use rust_enterprise_query_en.Pipelines.Firewall.{parse_llm_json}
use rust_enterprise_query_en.Pipelines.Ollama.{LlmError, unreachable, read_response}
use rust_enterprise_query_en.Pipelines.Query.{Services, Error}
use rust_enterprise_query_en.Pipelines.Query.Grounding.{IfOk, IsTrusted, CacheSound}
use rust_enterprise_query_en.Pipelines.Query.Concurrent.{
  Pc, begun, asking, sending, comparing, storing, finished,
}
use rust_enterprise_query_en.Pipelines.Query.Concurrent.Locals.{Fine, advance-Fine}
use rust_enterprise_query_en.Pipelines.Query.Router.{
  Dispatch, DispatchError, sql_failed, Full, RoutedQueryResult, sql_result, semantic_result,
  semantic_fallback, route_of, lines_failed, value_failed,
}
use rust_enterprise_query_en.Pipelines.Query.Router.Guarding.{
  Guarded-Reached, execute_sql_query-Guarded,
}
use rust_enterprise_query_en.Pipelines.Query.Serving.{
  Door, by_router, by_semantic, by_sql, RouterPurpose, to_route, to_write_sql, Wrap, as_result,
  as_fallback, as_answer, router_prompt, Task, Reply, routed, answered, rows, prompting, posting,
  executing_generated, executing, inside, done, prompt, reply_of, enter, routed_rows, after_prompt,
  after_post, begin, progress, doors,
}

module _ {fl : Floats} {services : Services fl} {parser : SqlParser} {engine : SqlEngine}
    {V : Type 0} (d : Dispatch fl services parser engine V) where
  open services use {client}

  -- A semantic result of the router can be trusted.
  abbrev pub IfSemantic : RoutedQueryResult V → Type 0
  IfSemantic (sql_result generated_sql results) = Unit
  IfSemantic (semantic_result res) = IsTrusted fl services res
  IfSemantic (semantic_fallback res) = IsTrusted fl services res

  abbrev pub IfReply : Reply d → Type 0
  IfReply (routed (ok result)) = IfSemantic result
  IfReply (routed (err e)) = Unit
  IfReply (answered r) = IfOk fl services r
  IfReply (rows r) = Unit

  abbrev pub FineTask : Task d → Type 0
  FineTask (inside wrap pc) = Fine fl services pc
  FineTask (done reply) = IfReply reply
  FineTask _ = Unit

  -- A request at its end has a reply without a semantic result, or one that can be trusted.
  abbrev pub IfDone : Task d → Type 0
  IfDone (done reply) = IfReply reply
  IfDone _ = Unit

  FineTask-IfDone : (t : Task d) → FineTask t → IfDone t
  FineTask-IfDone (prompting purpose attempt left last_err) h = tt
  FineTask-IfDone (posting purpose attempt left last_err) h = tt
  FineTask-IfDone (executing_generated generated_sql) h = tt
  FineTask-IfDone executing h = tt
  FineTask-IfDone (inside wrap pc) h = tt
  FineTask-IfDone (done reply) h = h

  reply_of-IfReply :
      (wrap : Wrap) (r : Result (Error fl services) SemanticQueryResult)
      → IfOk fl services r
      → IfReply (reply_of d wrap r)
  unfolding reply_of
  reply_of-IfReply as_result (ok res) h = h
  reply_of-IfReply as_result (err e) h = tt
  reply_of-IfReply as_fallback (ok res) h = h
  reply_of-IfReply as_fallback (err e) h = tt
  reply_of-IfReply as_answer r h = h

  enter-FineTask :
      (wrap : Wrap) (pc : Pc fl services) → Fine fl services pc → FineTask (enter d wrap pc)
  unfolding enter
  enter-FineTask wrap begun h = h
  enter-FineTask wrap (asking purpose attempt left last_err) h = h
  enter-FineTask wrap (sending purpose attempt left last_err) h = h
  enter-FineTask wrap (comparing parsed v) h = h
  enter-FineTask wrap (storing v payload bytes) h = h
  enter-FineTask wrap (finished r) h = reply_of-IfReply wrap r h

  chained-IfReply :
      {A : Type 0} (r : Result (DispatchError fl services parser engine V) A)
      (next : A → Result (DispatchError fl services parser engine V) (RoutedQueryResult V))
      → ((a : A) → IfReply (routed (next a)))
      → IfReply (routed (r >>= next))
  chained-IfReply (ok a) next h = h a
  chained-IfReply (err e) next h = tt

  routed_rows-IfReply :
      (generated_sql : Text) (executed : Result (Sql.Error parser engine) (List engine.RecordBatch))
      → IfReply (routed_rows d generated_sql executed)
  unfolding routed_rows
  routed_rows-IfReply generated_sql executed =
      chained-IfReply (map_err sql_failed executed) _ (λ batches.
        chained-IfReply (map_err lines_failed (record_batches_to_json_lines engine batches)) _
          (λ lines.
            chained-IfReply (map_err value_failed (collect (map d.value_from_str lines))) _
              (λ results. tt)))

  after_prompt-FineTask :
      (purpose : RouterPurpose) (reply : Result (LlmError client.HttpError) Text)
      → FineTask (after_prompt d purpose reply)
  unfolding after_prompt
  after_prompt-FineTask to_route (err e) = tt
  after_prompt-FineTask to_route (ok raw) =
      if_keeps FineTask (text_eq (route_of d raw) (codes "SQL")) (prompt d to_write_sql)
        (inside as_result begun) tt tt
  after_prompt-FineTask to_write_sql (err e) = tt
  after_prompt-FineTask to_write_sql (ok raw) =
      elim (Result-cases (parse_llm_json d.sql_from_str raw)) [
        | inl (_, e) ↦ rw (e, after_prompt, FineTask) tt
        | inr (_, e) ↦ rw (e, after_prompt, FineTask) tt
      ]

  after_post-FineTask :
      (purpose : RouterPurpose) (attempt left : ℕ)
      (response : Result client.HttpError client.Response)
      → FineTask (after_post d purpose attempt left response)
  unfolding after_post
  after_post-FineTask purpose attempt left (ok res) =
      after_prompt-FineTask purpose (read_response client res)
  after_post-FineTask purpose attempt left (err e) = tt

  pub begin-FineTask : (input : Door × Text) → FineTask (begin d input)
  unfolding begin
  begin-FineTask (by_router, query) = tt
  begin-FineTask (by_semantic, query) = tt
  begin-FineTask (by_sql, query) = tt

  -- The cache and the SQL engine.
  abbrev pub Sound : engine.State → Full fl services parser engine V → Type 0
  Sound from s = CacheSound fl services s.rest.cache × Reached parser engine from s.sql

  module _
      (decodes : (r : SemanticResponse) (bytes : List ℕ)
        → services.to_vec (verified r) ≡ ok bytes
        → services.from_slice bytes ≡ ok (verified r)) where
    pub progress-FineTask :
        (from : engine.State) (now : ℕ) (input : Door × Text) (s : Full fl services parser engine V)
        (t : Task d)
        → Sound from s
        → FineTask t
        → (let out = progress d now input s t in Sound from out.0 × FineTask out.1)
    unfolding progress
    progress-FineTask from now (door, query) s (prompting purpose attempt zero last_err) sound h =
        (sound, after_prompt-FineTask purpose (err (unreachable last_err)))
    progress-FineTask from now (door, query) s (prompting purpose attempt (suc n) last_err) sound
          h =
        (sound, tt)
    progress-FineTask from now (door, query) s (posting purpose attempt left last_err) sound h =
        let reply = (client.post s.rest.llm (router_prompt query purpose)).1 in
        (sound, after_post-FineTask purpose attempt left reply)
    progress-FineTask from now (door, query) s (executing_generated generated_sql) (kept, reached)
          h =
        (
          (
            kept,
            Guarded-Reached d reached
                (execute_sql_query-Guarded d d.max_sql_rows s.sql generated_sql),
          ),
          routed_rows-IfReply generated_sql _,
        )
    progress-FineTask from now (door, query) s executing (kept, reached) h = (
      (kept, Guarded-Reached d reached (execute_sql_query-Guarded d d.max_sql_rows s.sql query)),
      tt,
    )
    progress-FineTask from now (door, query) s (inside wrap pc) (kept, reached) h =
        let (kept', fine) = advance-Fine fl services decodes now query s.rest pc kept h in
        ((kept', reached), enter-FineTask wrap _ fine)
    progress-FineTask from now (door, query) s (done reply) sound h = (sound, h)

    -- If what the writer writes for a verified answer is read back as that answer, and whatever
    -- decodes from the cache can be trusted when the server opens, then in every state that the
    -- server reaches, in whatever order the requests of all doors arrive, wait for each other, retry
    -- and leave, and whatever the model answers:
    -- whatever decodes from the cache can be trusted; the SQL engine's state is one that texts lead
    -- to which each parse as a single query; and every semantic result that a door has got, routed,
    -- as a fallback or directly, can be trusted: a verified one is grounded in chunks that the store
    -- served, a degraded one lists such chunks.
    pub Reach-Served :
        {s : Full fl services parser engine V} {t : System (doors d)}
        → CacheSound fl services s.rest.cache
        → Reach (doors d) s t
        → Sound s.sql t.shared × All (λ (input, task). IfDone task) t.requests
    Reach-Served {s} {t} sound r =
        let (kept, fine) =
          Reach-keeps (doors d) (Sound s.sql) (λ input. FineTask) begin-FineTask
            (progress-FineTask s.sql) (λ w s kept. kept) (sound, nothing) r in
        (kept, All-map t.requests (λ (input, task). FineTask-IfDone task) fine)
