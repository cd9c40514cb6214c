-- ===== src/Gateway/Commands/Ask.antt =====
-- The command `ask` of src/gateway/mod.rs: each question goes to SQL or to the semantic pipeline, and
-- the SQL engine and the model are started when the first question needs them.
use rust_enterprise_query_en.Common.{
  List, Option, none, some, Result, ok, err, and_then, if◌then◌else◌,
}
use rust_enterprise_query_en.Common.Text.{Text, codes, text_eq}
use rust_enterprise_query_en.Engines.Embeddings.{Model}
use rust_enterprise_query_en.Pipelines.Ollama.{LlmError, prompt_model}
use rust_enterprise_query_en.Pipelines.Prompts.{build_routing_prompt}
use rust_enterprise_query_en.Pipelines.Query.Setup.{semantic_cache}
use rust_enterprise_query_en.Pipelines.Query.Router.{route_of}
use rust_enterprise_query_en.Gateway.Cli.{CliError}
use rust_enterprise_query_en.Gateway.Commands.{
  CommandError, Process, World, Step, for_each, load_model, start_engine, semantic_query,
  ai_sql_query,
}

module _ (p : Process) where
  open p use {fl, services, engine}

  -- The variables of the command beside the shared state.
  pub record Session : Type 0 where
    pub world : World p
    pub sql_engine : Option engine.State
    pub model_bundle : Option (Model fl services.ModelError)

  unfoldable pub keep_engine :
      Session → Result (CommandError p) engine.State → Step p Session engine.State
  keep_engine s (ok sql) = (record s { sql_engine = some sql }, ok sql)
  keep_engine s (err e) = (s, err e)

  -- `if sql_engine.is_none() { sql_engine = Some(init_datafusion().await?); }`
  unfoldable pub need_engine : Session → Step p Session engine.State
  need_engine s = elim s.sql_engine [
    | some sql ↦ (s, ok sql)
    | none ↦ keep_engine s (start_engine p)
  ]

  unfoldable pub keep_model :
      Session
      → Step p (World p) (Model fl services.ModelError)
      → Step p Session (Model fl services.ModelError)
  keep_model s (w, ok model) = (record s { world = w; model_bundle = some model }, ok model)
  keep_model s (w, err e) = (record s { world = w }, err e)

  -- `if model_bundle.is_none() { model_bundle = Some(load_model().await?); }`
  unfoldable pub need_model : Session → Step p Session (Model fl services.ModelError)
  need_model s = elim s.model_bundle [
    | some model ↦ (s, ok model)
    | none ↦ keep_model s (load_model p s.world)
  ]

  unfoldable pub ask_sql : Text → Session → Step p Session (Unit {0})
  ask_sql q s = and_then (need_engine s) λ s' sql.
      let out = ai_sql_query p (s'.world, sql) q in
      (record s' { world = out.0.0; sql_engine = some out.0.1 }, out.1)

  -- Every question has a state of its own, with an empty cache.
  unfoldable pub ask_semantic : Text → Session → Step p Session (Unit {0})
  ask_semantic q s = and_then (need_model s) λ s' model.
      let out = semantic_query p model (s'.world, semantic_cache fl p.settings) q in
      (record s' { world = out.0.0 }, out.1)

  unfoldable pub route_query :
      Text → Session → Result (LlmError services.client.HttpError) Text → Step p Session (Unit {0})
  route_query q s (err _) = ask_semantic q s
  route_query q s (ok raw_json) =
      if text_eq (route_of p.dispatch raw_json) (codes "SQL") then ask_sql q s else ask_semantic q s

  unfoldable pub ask_query : Session → Text → Step p Session (Unit {0})
  ask_query s q =
      let out = prompt_model services.client (build_routing_prompt q) s.world.llm in
      route_query q (record s { world = record s.world { llm = out.0 } }) out.1

  unfoldable pub ask_queries :
      World p → List (Result (CliError p.InputError) Text) → Step p Session (Unit {0})
  ask_queries w queries =
      for_each p ask_query (record { world = w; sql_engine = none; model_bundle = none }) queries
