-- ===== src/Gateway/Commands/Run.antt =====
-- `run` of src/gateway/mod.rs: the dispatch of a command. The servers themselves are a parameter.
use rust_enterprise_query_en.Common.{ℕ, Bool, Option, ok, and_then, map_err}
use rust_enterprise_query_en.Common.Text.{Text}
use rust_enterprise_query_en.Engines.Cache.{SemanticCache}
use rust_enterprise_query_en.Engines.Embeddings.{Model}
use rust_enterprise_query_en.Engines.Vector.{check_lancedb_health, is_vector_indexed}
use rust_enterprise_query_en.Pipelines.Ingest.Csv.{execute_ingestion}
use rust_enterprise_query_en.Pipelines.Query.Setup.{semantic_cache}
use rust_enterprise_query_en.Gateway.Health.{health_command}
use rust_enterprise_query_en.Gateway.Commands.{
  Commands, ingest, ask, ask_semantic, execute_sql, ask_ai_sql, health, serve, Process, World, Step,
  client_failed, ingest_failed, address_failed, print_line, for_each, load_model, resolve,
  start_engine, semantic_query, ai_sql_query, sql_query,
}
use rust_enterprise_query_en.Gateway.Commands.Ask.{ask_queries}

module _ (p : Process) where
  open p use {fl, services, engine}

  unfoldable pub run_ingest : Text → Bool → ℕ → World p → Step p (World p) (Unit {0})
  run_ingest file overwrite batch_size w = and_then (load_model p w) λ w' model.
      let out =
        execute_ingestion fl p.ingestion services.ModelError p.CsvError services.max_batch model
          overwrite batch_size w'.db p.connected (p.open_csv file) in
      (record w' { db = out.0 }, map_err ingest_failed out.1)

  -- The state of the loop of a command, seen by what follows it.
  abbrev pub of_loop : {S : Type 0} → Step p (World p × S) (Unit {0}) → Step p (World p) (Unit {0})
  of_loop ((w, _), r) = (w, r)

  -- One state, and so one cache, for all the questions.
  unfoldable pub run_ask_semantic : Option Text → World p → Step p (World p) (Unit {0})
  run_ask_semantic query w = and_then (load_model p w) λ w' model.
      and_then (w', resolve p query)
        λ w'' queries.
          of_loop (for_each p (semantic_query p model) (w'', semantic_cache fl p.settings) queries)

  unfoldable pub run_ask : Option Text → World p → Step p (World p) (Unit {0})
  run_ask query w =
      and_then (w, resolve p query)
        λ w' queries. let out = ask_queries p w' queries in (out.0.world, out.1)

  -- The commands on the SQL engine: the queries, then the engine, then the loop.
  unfoldable pub run_sql :
      (World p × engine.State → Text → Step p (World p × engine.State) (Unit {0}))
      → Option Text
      → World p
      → Step p (World p) (Unit {0})
  run_sql body query w =
      and_then (w, resolve p query)
        λ w' queries.
          and_then (w', start_engine p) λ w'' sql. of_loop (for_each p body (w'', sql) queries)

  unfoldable pub run_health : World p → Step p (World p) (Unit {0})
  run_health w =
      let stats =
        check_lancedb_health fl services.store services.chunk_json services.vector_db_uri in
      let indexed =
        is_vector_indexed fl services.store services.chunk_json services.vector_db_uri in
      print_line p (p.report_to_string (health_command p.llm_online stats indexed)) w

  -- What the two servers share.
  pub record AppState : Type 0 where
    pub model : Model fl services.ModelError
    pub sql : engine.State
    pub cache : SemanticCache fl
    pub http_addr : p.Address
    pub grpc_addr : p.Address

  unfoldable pub boot : Text → ℕ → ℕ → World p → Step p (World p) AppState
  boot host port grpc_port w =
      and_then (w, map_err address_failed (p.parse_address host port))
        λ w0 http_addr.
          and_then (w0, map_err address_failed (p.parse_address host grpc_port))
            λ w1 grpc_addr. and_then (load_model p w1) λ w2 model.
              and_then (w2, start_engine p)
                λ w3 sql. (
                  w3,
                  ok (record {
                    model = model;
                    sql = sql;
                    cache = semantic_cache fl p.settings;
                    http_addr = http_addr;
                    grpc_addr = grpc_addr;
                  }),
                )

  -- The dispatch of `run`; `start_dual_server` serves until it is shut down.
  module _ (start_dual_server : AppState → World p → Step p (World p) (Unit {0})) where
    unfoldable pub dispatch : Commands → World p → Step p (World p) (Unit {0})
    dispatch (ingest file overwrite batch_size) w = run_ingest file overwrite batch_size w
    dispatch (ask query) w = run_ask query w
    dispatch (ask_semantic query) w = run_ask_semantic query w
    dispatch (execute_sql query) w = run_sql (sql_query p) query w
    dispatch (ask_ai_sql query) w = run_sql (ai_sql_query p) query w
    dispatch health w = run_health w
    dispatch (serve host port grpc_port) w =
        and_then (boot host port grpc_port w) λ w' state. start_dual_server state w'

    unfoldable pub run : Commands → World p → Step p (World p) (Unit {0})
    run command w = and_then (w, map_err client_failed p.client_built) λ w' _. dispatch command w'
