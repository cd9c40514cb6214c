-- ===== src/Gateway/Commands/Loads.antt =====
-- How often the command `ask` of src/gateway/mod.rs loads the model.
use rust_enterprise_query_en.Common.{
  List, Option, none, some, Result, ok, err, ◌≡◌, refl, ◌∙◌, ap, ◌⊎◌, inl, inr, Result-cases,
  Bool-cases, Option-cases,
}
use rust_enterprise_query_en.Common.Text.{Text, codes, text_eq}
use rust_enterprise_query_en.Engines.Cache.{SemanticCache}
use rust_enterprise_query_en.Engines.Embeddings.{Model}
use rust_enterprise_query_en.Engines.Loading as Loading
use rust_enterprise_query_en.Pipelines.Types.{SemanticQueryResult}
use rust_enterprise_query_en.Pipelines.Ollama.{LlmError, prompt_model}
use rust_enterprise_query_en.Pipelines.Prompts.{build_routing_prompt}
use rust_enterprise_query_en.Pipelines.Query.Setup.{semantic_cache}
use rust_enterprise_query_en.Pipelines.Query.Router.{route_of}
use rust_enterprise_query_en.Gateway.Cli.{CliError}
use rust_enterprise_query_en.Gateway.Commands.{
  CommandError, Process, World, Step, start_engine, print_line, write_text, print_batches,
  print_result, load_model, semantic_query, ai_sql_query,
}
use rust_enterprise_query_en.Gateway.Commands.Ask.{
  Session, keep_engine, need_engine, need_model, keep_model, ask_sql, ask_semantic, route_query,
  ask_query, ask_queries,
}
use rust_enterprise_query_en.Gateway.Commands.Loops.{for_each-keeps}

module _ (p : Process) where
  open p use {fl, services, engine, machine, builders}

  -- Nothing but a load changes the files of the model.
  print_line-assets :
      (r : Result services.JsonError Text) (w : World p) → (print_line p r w).0.assets ≡ w.assets
  unfolding print_line
  print_line-assets (ok text) w = refl
  print_line-assets (err e) w = refl

  print_result-assets :
      (r : Result (CommandError p) SemanticQueryResult) (w : World p)
      → (print_result p r w).0.assets ≡ w.assets
  unfolding print_result
  print_result-assets (ok res) w = print_line-assets _ w
  print_result-assets (err e) w = refl

  write_text-assets :
      (r : Result engine.EngineError Text) (w : World p) → (write_text p r w).0.assets ≡ w.assets
  unfolding write_text
  write_text-assets (ok text) w = refl
  write_text-assets (err e) w = refl

  print_batches-assets :
      (r : Result (CommandError p) (List engine.RecordBatch)) (w : World p)
      → (print_batches p r w).0.assets ≡ w.assets
  unfolding print_batches
  print_batches-assets (ok batches) w = write_text-assets _ w
  print_batches-assets (err e) w = refl

  semantic_query-assets :
      (model : Model fl services.ModelError) (w : World p) (cache : SemanticCache fl) (q : Text)
      → (semantic_query p model (w, cache) q).0.0.assets ≡ w.assets
  unfolding semantic_query
  semantic_query-assets model w cache q = print_result-assets _ _

  ai_sql_query-assets :
      (w : World p) (sql : engine.State) (q : Text)
      → (ai_sql_query p (w, sql) q).0.0.assets ≡ w.assets
  unfolding ai_sql_query
  ai_sql_query-assets w sql q = print_batches-assets _ _

  -- The files after one load.
  abbrev pub loaded : Loading.World machine → Loading.World machine
  loaded assets = (Loading.load_model machine builders p.model_cache_dir assets).0

  module _ (start : Loading.World machine) where
    -- The session has not loaded the model, or holds the one that one load has given.
    abbrev Lazy : Session p → Type 0
    Lazy s =
        ((s.model_bundle ≡ none) × (s.world.assets ≡ start))
        ⊎ (((model : Model fl services.ModelError) × (s.model_bundle ≡ some model))
            × (s.world.assets ≡ loaded start))

    abbrev Once : Session p → Type 0
    Once s = (s.world.assets ≡ start) ⊎ (s.world.assets ≡ loaded start)

    Lazy-Once : (s : Session p) → Lazy s → Once s
    Lazy-Once s (inl (_, same)) = inl same
    Lazy-Once s (inr (_, same)) = inr same

    -- What a step with an outcome keeps.
    Round : {A : Type 0} → Step p (Session p) A → Type 0
    Round {A} (s, r) = Once s × ((a : A) → r ≡ ok a → Lazy s)

    keep_engine-Round :
        (s : Session p) (r : Result (CommandError p) engine.State)
        → Lazy s
        → Round (keep_engine p s r)
    unfolding keep_engine Round
    keep_engine-Round s (ok sql) lazy = (Lazy-Once s lazy, λ a h. lazy)
    keep_engine-Round s (err e) lazy = (Lazy-Once s lazy, λ a h. lazy)

    need_engine-Round : (s : Session p) → Lazy s → Round (need_engine p s)
    unfolding need_engine
    need_engine-Round s lazy = elim (Option-cases s.sql_engine) [
      | inl unused ↦ rw (unused, need_engine) (keep_engine-Round s (start_engine p) lazy)
      | inr (sql, kept) ↦ rw (kept, need_engine) (unfold Round in (Lazy-Once s lazy, λ a h. lazy))
    ]

    keep_model-Round :
        (s : Session p) (w : World p) (r : Result (CommandError p) (Model fl services.ModelError))
        → w.assets ≡ loaded start
        → Round (keep_model p s (w, r))
    unfolding keep_model Round
    keep_model-Round s w (ok model) same = (inr same, λ a h. inr ((model, refl), same))
    keep_model-Round s w (err e) same = (inr same, λ a h. cc)

    need_model-Round : (s : Session p) → Lazy s → Round (need_model p s)
    unfolding need_model load_model
    need_model-Round s (inl (unused, same)) =
        rw (unused, need_model) (keep_model-Round s _ _ (ap loaded same))
    need_model-Round s (inr ((model, kept), same)) =
        rw (kept, need_model) (unfold Round in (inr same, λ a h. inr ((model, kept), same)))

    -- A session whose world has the same files.
    Lazy-same :
        (s : Session p) (w : World p) (sql : Option engine.State)
        → w.assets ≡ s.world.assets
        → Lazy s
        → Lazy (record s { world = w; sql_engine = sql })
    Lazy-same s w sql same (inl (unused, at)) = inl (unused, same ∙ at)
    Lazy-same s w sql same (inr (kept, at)) = inr (kept, same ∙ at)

    ask_sql-Round : (q : Text) (s : Session p) → Lazy s → Round (ask_sql p q s)
    unfolding ask_sql Round
    ask_sql-Round q s lazy =
        let (once, go) = need_engine-Round s lazy in
        elim (Result-cases (need_engine p s).1) [
          | inr (e, failed) ↦ rw failed (once, λ a h. cc)
          | inl (sql, given) ↦
              let s' = (need_engine p s).0 in
              let out = ai_sql_query p (s'.world, sql) q in
              let after =
                Lazy-same s' out.0.0 (some out.0.1) (ai_sql_query-assets s'.world sql q)
                  (go sql given) in
              let afterwards : Session p = record s' {
                world = out.0.0;
                sql_engine = some out.0.1;
              } in
              rw given (Lazy-Once afterwards after, λ a h. after)
        ]

    ask_semantic-Round : (q : Text) (s : Session p) → Lazy s → Round (ask_semantic p q s)
    unfolding ask_semantic Round
    ask_semantic-Round q s lazy =
        let (once, go) = need_model-Round s lazy in
        elim (Result-cases (need_model p s).1) [
          | inr (e, failed) ↦ rw failed (once, λ a h. cc)
          | inl (model, given) ↦
              let s' = (need_model p s).0 in
              let cache = semantic_cache fl p.settings in
              let out = semantic_query p model (s'.world, cache) q in
              let after =
                Lazy-same s' out.0.0 s'.sql_engine (semantic_query-assets model s'.world cache q)
                  (go model given) in
              let afterwards : Session p = record s' { world = out.0.0 } in
              rw given (Lazy-Once afterwards after, λ a h. after)
        ]

    route_query-Round :
        (q : Text) (s : Session p) (out : Result (LlmError services.client.HttpError) Text)
        → Lazy s
        → Round (route_query p q s out)
    unfolding route_query
    route_query-Round q s (err e) lazy = ask_semantic-Round q s lazy
    route_query-Round q s (ok raw) lazy =
        elim (Bool-cases (text_eq (route_of p.dispatch raw) (codes "SQL"))) [
          | inl sql ↦ rw sql (ask_sql-Round q s lazy)
          | inr other ↦ rw other (ask_semantic-Round q s lazy)
        ]

    ask_query-Round :
        (s : Session p) (q : Text)
        → Lazy s
        → Once (ask_query p s q).0 × ((ask_query p s q).1 ≡ ok tt → Lazy (ask_query p s q).0)
    unfolding ask_query Round
    ask_query-Round s q lazy =
        let routed = prompt_model services.client (build_routing_prompt q) s.world.llm in
        let w : World p = record s.world { llm = routed.0 } in
        let (once, go) =
          route_query-Round q (record s { world = w }) routed.1
            (Lazy-same s w s.sql_engine refl lazy) in
        (once, go tt)

  -- However many questions `ask` gets, and however they end, it loads the model at most once: the
  -- disk and the network are as before, or as after one load.
  pub ask_queries_load_once :
      (w : World p) (queries : List (Result (CliError p.InputError) Text))
      → ((ask_queries p w queries).0.world.assets ≡ w.assets)
        ⊎ ((ask_queries p w queries).0.world.assets
            ≡ (Loading.load_model machine builders p.model_cache_dir w.assets).0)
  unfolding ask_queries
  ask_queries_load_once w queries =
      for_each-keeps p (ask_query p) (Lazy w.assets) (Once w.assets) (Lazy-Once w.assets)
        (ask_query-Round w.assets) queries _ (inl (refl, refl))
