-- ===== src/Gateway/Commands/Statements.antt =====
-- What the commands of src/gateway/mod.rs can do to the SQL engine.
use rust_enterprise_query_en.Common.{
  List, none, some, Result, ok, err, ◌≡◌, refl, ◌⊎◌, inl, inr, Result-cases, Bool-cases,
  ok-injective, Option-cases,
}
use rust_enterprise_query_en.Common.Text.{Text, codes, text_eq}
use rust_enterprise_query_en.Engines.Sql.Laws.{Reached, nothing}
use rust_enterprise_query_en.Pipelines.Ollama.{LlmError}
use rust_enterprise_query_en.Pipelines.Query.Router.{route_of}
use rust_enterprise_query_en.Pipelines.Query.Router.Guarding.{
  Guarded-Reached, execute_sql_query-Guarded, run_sql_query-Guarded,
}
use rust_enterprise_query_en.Gateway.Cli.{CliError}
use rust_enterprise_query_en.Gateway.Commands.{
  CommandError, load_model, Process, World, Step, for_each, start_engine, ai_sql_query, sql_query,
  Model,
}
use rust_enterprise_query_en.Gateway.Commands.Ask.{
  Session, keep_engine, need_engine, need_model, keep_model, ask_sql, ask_semantic, route_query,
  ask_query, ask_queries,
}
use rust_enterprise_query_en.Gateway.Commands.Loops.{for_each-keeps}

module _ (p : Process) where
  open p use {fl, services, parser, engine}

  pub sql_query-Reached :
      (from : engine.State) (s : World p × engine.State) (q : Text)
      → Reached parser engine from s.1
      → Reached parser engine from (sql_query p s q).0.1
  unfolding sql_query
  sql_query-Reached from (w, sql) q reached =
      Guarded-Reached p.dispatch reached
        (execute_sql_query-Guarded p.dispatch p.dispatch.max_sql_rows sql q)

  pub ai_sql_query-Reached :
      (from : engine.State) (s : World p × engine.State) (q : Text)
      → Reached parser engine from s.1
      → Reached parser engine from (ai_sql_query p s q).0.1
  unfolding ai_sql_query
  ai_sql_query-Reached from (w, sql) q reached =
      Guarded-Reached p.dispatch reached (run_sql_query-Guarded p.dispatch q _)

  -- The engine of a session: not started yet, or reached from the one that was started.
  abbrev pub Engine : Session p → Type 0
  Engine s =
      (s.sql_engine ≡ none)
      ⊎ ((from sql : engine.State) × (start_engine p ≡ ok from)
          × (s.sql_engine ≡ some sql)
          × Reached parser engine from sql)

  -- The engine of a session, and the one that a step gives.
  Given : Step p (Session p) engine.State → Type 0
  Given (s, r) =
      Engine s
      × ((sql : engine.State)
          → r ≡ ok sql
          → (from : engine.State) × (start_engine p ≡ ok from) × Reached parser engine from sql)

  keep_engine-Given :
      (s : Session p) (r : Result (CommandError p) engine.State)
      → Engine s
      → start_engine p ≡ r
      → Given (keep_engine p s r)
  unfolding keep_engine Given
  keep_engine-Given s (err e) kept started = (kept, λ sql h. cc)
  keep_engine-Given s (ok from) kept started = (
    inr (from, from, started, refl, nothing),
    λ sql h. (from, started, rw (← ok-injective h) nothing),
  )

  need_engine-Given : (s : Session p) → Engine s → Given (need_engine p s)
  unfolding need_engine
  need_engine-Given s (inl unused) =
      rw (unused, need_engine) (keep_engine-Given s (start_engine p) (inl unused) refl)
  need_engine-Given s (inr (from, sql, started, kept, reached)) =
      unfold Given in
      (rw kept (
        inr (from, sql, started, refl, reached),
        λ x h. (from, started, rw (← ok-injective h) reached),
      ))

  ask_sql-Engine : (q : Text) (s : Session p) → Engine s → Engine (ask_sql p q s).0
  unfolding ask_sql Given
  ask_sql-Engine q s kept =
      let (after, found) = need_engine-Given s kept in
      elim (Result-cases (need_engine p s).1) [
        | inr (e, failed) ↦ rw failed after
        | inl (sql, given) ↦
            let (from, started, reached) = found sql given in
            rw given (inr (from, _, started, refl, ai_sql_query-Reached from (_, sql) q reached))
      ]

  keep_model-engine :
      (s : Session p) (out : Step p (World p) (Model fl services.ModelError))
      → (keep_model p s out).0.sql_engine ≡ s.sql_engine
  unfolding keep_model
  keep_model-engine s (w, ok model) = refl
  keep_model-engine s (w, err e) = refl

  need_model-engine : (s : Session p) → (need_model p s).0.sql_engine ≡ s.sql_engine
  unfolding need_model
  need_model-engine s = elim (Option-cases s.model_bundle) [
    | inl unused ↦ rw (unused, need_model) (keep_model-engine s (load_model p s.world))
    | inr (model, kept) ↦ rw kept refl
  ]

  ask_semantic-engine :
      (q : Text) (s : Session p) → (ask_semantic p q s).0.sql_engine ≡ s.sql_engine
  unfolding ask_semantic
  ask_semantic-engine q s = elim (Result-cases (need_model p s).1) [
    | inr (e, failed) ↦ rw failed (need_model-engine s)
    | inl (model, given) ↦ rw given (need_model-engine s)
  ]

  route_query-Engine :
      (q : Text) (s : Session p) (out : Result (LlmError services.client.HttpError) Text)
      → Engine s
      → Engine (route_query p q s out).0
  unfolding route_query
  route_query-Engine q s (err e) kept = rw (ask_semantic-engine q s) kept
  route_query-Engine q s (ok raw) kept =
      elim (Bool-cases (text_eq (route_of p.dispatch raw) (codes "SQL"))) [
        | inl sql ↦ rw sql (ask_sql-Engine q s kept)
        | inr other ↦ rw other (rw (ask_semantic-engine q s) kept)
      ]

  ask_query-Engine : (s : Session p) (q : Text) → Engine s → Engine (ask_query p s q).0
  unfolding ask_query
  ask_query-Engine s q kept = route_query-Engine q _ _ kept

  -- Whatever the queries, the input and the answers of the model are, the loops of `execute-sql` and
  -- `ask-ai-sql` leave the SQL engine in a state that texts lead to which parse as a single query,
  -- starting from the state they were given; and the loop of `ask` leaves its engine unstarted, or in
  -- such a state, starting from the one that was initialised.
  pub queries-Reached :
      (queries : List (Result (CliError p.InputError) Text)) (w : World p) (from : engine.State)
      → Reached parser engine from (for_each p (sql_query p) (w, from) queries).0.1
        × Reached parser engine from (for_each p (ai_sql_query p) (w, from) queries).0.1
        × Engine (ask_queries p w queries).0
  unfolding ask_queries
  queries-Reached queries w from = (
    for_each-keeps p (sql_query p) (λ s. Reached parser engine from s.1)
        (λ s. Reached parser engine from s.1) (λ s h. h)
        (λ s q h. (sql_query-Reached from s q h, λ _. sql_query-Reached from s q h)) queries
        (w, from) nothing,
    for_each-keeps p (ai_sql_query p) (λ s. Reached parser engine from s.1)
        (λ s. Reached parser engine from s.1) (λ s h. h)
        (λ s q h. (ai_sql_query-Reached from s q h, λ _. ai_sql_query-Reached from s q h)) queries
        (w, from) nothing,
    for_each-keeps p (ask_query p) Engine Engine (λ s h. h)
        (λ s q h. (ask_query-Engine s q h, λ _. ask_query-Engine s q h)) queries _ (inl refl),
  )
