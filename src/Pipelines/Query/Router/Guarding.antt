-- ===== src/Pipelines/Query/Router/Guarding.antt =====
-- What a question in natural language can do to the SQL engine.
use rust_enterprise_query_en.Common.{
  ℕ, Option, Result, ok, err, ◌≡◌, refl, ap, ◌⊎◌, inl, inr, Bool-cases, Result-cases,
}
use rust_enterprise_query_en.Common.Text.{Text, codes, text_eq}
use rust_enterprise_query_en.Common.Floats.{Floats}
use rust_enterprise_query_en.Engines.AstGuard.{SqlParser}
use rust_enterprise_query_en.Engines.Sql.{SqlEngine, run_planned, execute_sql_query}
use rust_enterprise_query_en.Engines.Sql.Laws.{
  IsSingleQuery, Reached, statement, execute_sql_query_guarded,
}
use rust_enterprise_query_en.Pipelines.Types.{RouterDecision}
use rust_enterprise_query_en.Pipelines.Firewall.{parse_llm_json}
use rust_enterprise_query_en.Pipelines.Ollama.{LlmError}
use rust_enterprise_query_en.Pipelines.Query.{Services, Times}
use rust_enterprise_query_en.Pipelines.Query.Router.{
  Dispatch, Full, Answer, ask, semantic, execute_generated, run_sql_query, execute_routed_sql,
  route_of, dispatch_routed, run_routed_pipeline, classify_intent, output_lines, dispatch_query,
  uppercase_is_sql, run_query_pipeline,
}

module _ {fl : Floats} {services : Services fl} {parser : SqlParser} {engine : SqlEngine}
    {V : Type 0} (d : Dispatch fl services parser engine V) where
  open services use {client}

  -- The engine's state is the one before, or the one after a text that is a single query.
  abbrev pub Guarded : engine.State → engine.State → Type 0
  Guarded before after =
      (after ≡ before)
      ⊎ ((query : Text) × IsSingleQuery parser engine query × (after ≡ (engine.sql before query).0))

  pub Guarded-Reached :
      {from before after : engine.State}
      → Reached parser engine from before
      → Guarded before after
      → Reached parser engine from after
  Guarded-Reached reached (inl same) = rw same reached
  Guarded-Reached reached (inr (query, single, after)) = rw after (statement query reached single)

  pub execute_sql_query-Guarded :
      (setting : Option ℕ) (s : engine.State) (query : Text)
      → Guarded s (execute_sql_query parser engine setting s query).0
  unfolding run_planned
  execute_sql_query-Guarded setting s query =
      elim (execute_sql_query_guarded parser engine setting s query) [
        | inl (single, e) ↦ inr (query, single, ap (λ p. p.0) e)
        | inr (f, _, e) ↦ inl (ap (λ p. p.0) e)
      ]

  execute_generated-Guarded :
      (s : Full fl services parser engine V) (out : Result (LlmError client.HttpError) Text)
      → Guarded s.sql (execute_generated d s out).0.sql
  unfolding execute_generated
  execute_generated-Guarded s (err e) = inl refl
  execute_generated-Guarded s (ok raw) = elim (Result-cases (parse_llm_json d.sql_from_str raw)) [
    | inl (response, e) ↦
        rw (e, execute_generated) (execute_sql_query-Guarded d.max_sql_rows s.sql response.query)
    | inr (f, e) ↦ rw (e, execute_generated) (inl refl)
  ]

  pub run_sql_query-Guarded :
      (query : Text) (s : Full fl services parser engine V)
      → Guarded s.sql (run_sql_query d query s).0.sql
  unfolding run_sql_query ask
  run_sql_query-Guarded query s = execute_generated-Guarded _ _

  dispatch_routed-Guarded :
      (times : Times) (query : Text) (s : Full fl services parser engine V)
      (out : Result (LlmError client.HttpError) Text)
      → Guarded s.sql (dispatch_routed d times query s out).0.sql
  unfolding dispatch_routed semantic execute_routed_sql
  dispatch_routed-Guarded times query s (err e) = inl refl
  dispatch_routed-Guarded times query s (ok raw) =
      elim (Bool-cases (text_eq (route_of d raw) (codes "SQL"))) [
        | inl sql ↦ rw sql (run_sql_query-Guarded query s)
        | inr other ↦ rw other (inl refl)
      ]

  dispatch_query-Guarded :
      (times : Times) (query : Text) (r : Answer d RouterDecision)
      → Guarded r.0.sql (dispatch_query d times query r).0.sql
  unfolding dispatch_query semantic output_lines
  dispatch_query-Guarded times query (s, err e) = inl refl
  dispatch_query-Guarded times query (s, ok decision) =
      elim (Bool-cases (uppercase_is_sql decision.route)) [
        | inl sql ↦ rw sql (run_sql_query-Guarded query s)
        | inr other ↦ rw other (inl refl)
      ]

  -- Whatever the model answers, both dispatchers leave the engine's state as it was, or as it is
  -- after one text that parses as a single query.
  pub dispatch-Guarded :
      (times : Times) (query : Text) (s : Full fl services parser engine V)
      → Guarded s.sql (run_routed_pipeline d times query s).0.sql
        × Guarded s.sql (run_query_pipeline d times query s).0.sql
  unfolding run_routed_pipeline run_query_pipeline classify_intent ask
  dispatch-Guarded times query s = (
    dispatch_routed-Guarded times query _ _,
    dispatch_query-Guarded times query (classify_intent d query s),
  )
