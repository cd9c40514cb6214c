-- ===== src/Gateway/Commands.antt =====
-- The commands of src/gateway/mod.rs and src/gateway/cli.rs, as steps on what they share: the disk with
-- the models, the client of the language model, the store, a clock and the standard output.
pub mod Ask
pub mod Run
pub mod Loops
pub mod Statements
pub mod Loads
pub mod Answers
use rust_enterprise_query_en.Common.{
  ℕ, suc, Bool, List, [], ◌∷◌, ◌++◌, Option, none, some, Result, ok, err, ◌>>=◌, map_err, and_then,
}
use rust_enterprise_query_en.Common.Text.{Text}
use rust_enterprise_query_en.Common.Floats.{Floats}
use rust_enterprise_query_en.Engines.AstGuard.{SqlParser}
use rust_enterprise_query_en.Engines.Cache.{SemanticCache}
use rust_enterprise_query_en.Engines.Embeddings.{Model, EmbeddingError}
use rust_enterprise_query_en.Engines.Loading.{Machine, Builders}
use rust_enterprise_query_en.Engines.Loading as Loading
use rust_enterprise_query_en.Engines.Sql.{SqlEngine, init_datafusion, execute_sql_query}
use rust_enterprise_query_en.Engines.Sql as Sql
use rust_enterprise_query_en.Pipelines.Ingest.{IngestStore, IngestError}
use rust_enterprise_query_en.Pipelines.Types.{Kna1Row, SemanticQueryResult}
use rust_enterprise_query_en.Pipelines.Query.{Services, Times, run_semantic_pipeline}
use rust_enterprise_query_en.Pipelines.Query as Query
use rust_enterprise_query_en.Pipelines.Query.Setup.{Settings, semantic_cache, with_model}
use rust_enterprise_query_en.Pipelines.Query.Router.{Dispatch, DispatchError, run_sql_query}
use rust_enterprise_query_en.Gateway.Cli.{CliError, resolve_query_inputs}
use rust_enterprise_query_en.Gateway.Health.{HealthResponse}

-- The subcommands with their arguments.
pub data Commands : Type 0 where
  ingest : (file : Text) (overwrite : Bool) (batch_size : ℕ) → Commands
  ask : (query : Option Text) → Commands
  ask_semantic : (query : Option Text) → Commands
  execute_sql : (query : Option Text) → Commands
  ask_ai_sql : (query : Option Text) → Commands
  health : Commands
  serve : (host : Text) (port grpc_port : ℕ) → Commands

-- What a process has: the other crates, its settings, its standard input and its clock.
pub record Process : Type 1 where
  pub fl : Floats
  pub services : Services fl
  pub parser : SqlParser
  pub engine : SqlEngine
  pub JsonValue : Type 0
  pub dispatch : Dispatch fl services parser engine JsonValue
  pub machine : Machine
  pub builders : Builders machine
  -- Whether `OllamaClient::init_from_env_or_default` builds an HTTP client.
  pub client_built : Result services.client.HttpError (Unit {0})
  -- The embedding model that a loaded network and its tokenizer make.
  pub model_of : builders.Network × builders.Tokenizer → Model fl services.ModelError
  pub model_cache_dir : Option Text
  pub csv_path : Option Text
  pub settings : Settings fl
  pub clock : ℕ → Times
  pub InputError : Type 0
  pub is_terminal : Bool
  pub stdin_lines : List (Result InputError Text)
  pub result_to_string : SemanticQueryResult → Result services.JsonError Text
  -- The write side of the store, whether it can be connected to, and the rows of a file.
  pub ingestion : IngestStore fl.F
  pub connected : Result ingestion.StoreError (Unit {0})
  pub CsvError : Type 0
  pub open_csv : Text → Result CsvError (List (Result CsvError Kna1Row))
  -- Whether the probe of the language model is answered.
  pub llm_online : Bool
  pub report_to_string : HealthResponse → Result services.JsonError Text
  -- The addresses of the servers.
  pub Address : Type 0
  pub AddressError : Type 0
  pub parse_address : Text → ℕ → Result AddressError Address

module _ (p : Process) where
  open p use {fl, services, parser, engine, machine, builders}

  pub data CommandError : Type 0 where
    client_failed : services.client.HttpError → CommandError
    load_failed : Loading.Error machine builders.BuildError → CommandError
    ingest_failed :
        IngestError p.ingestion.StoreError (EmbeddingError services.ModelError) p.CsvError
        → CommandError
    input_failed : CliError p.InputError → CommandError
    semantic_failed : Query.Error fl services → CommandError
    ai_sql_failed : DispatchError fl services parser engine p.JsonValue → CommandError
    sql_failed : Sql.Error parser engine → CommandError
    engine_failed : engine.EngineError → CommandError
    lines_failed : engine.EngineError → CommandError
    encode_failed : services.JsonError → CommandError
    address_failed : p.AddressError → CommandError

  pub record World : Type 0 where
    pub assets : Loading.World machine
    pub llm : services.client.World
    pub db : p.ingestion.Db
    pub ticks : ℕ
    pub out : Text

  -- A step on a state that may fail.
  abbrev pub Step : Type 0 → Type 0 → Type 0
  Step S A = S × Result CommandError A

  -- `println!`
  unfoldable pub print_line : Result services.JsonError Text → World → Step World (Unit {0})
  print_line (err e) w = (w, err (encode_failed e))
  print_line (ok text) w = (record w { out = w.out ++ (text ++ 10 ∷ []) }, ok tt)

  -- `write_record_batches_as_json_lines` into the standard output.
  unfoldable pub write_text : Result engine.EngineError Text → World → Step World (Unit {0})
  write_text (err e) w = (w, err (lines_failed e))
  write_text (ok text) w = (record w { out = w.out ++ text }, ok tt)

  unfoldable pub print_batches :
      Result CommandError (List engine.RecordBatch) → World → Step World (Unit {0})
  print_batches (err e) w = (w, err e)
  print_batches (ok batches) w = write_text (engine.write_json_lines batches) w

  unfoldable pub print_result :
      Result CommandError SemanticQueryResult → World → Step World (Unit {0})
  print_result (err e) w = (w, err e)
  print_result (ok res) w = print_line (p.result_to_string res) w

  -- The loop over the queries: the first error ends it.
  unfoldable pub for_each :
      {S : Type 0}
      → (S → Text → Step S (Unit {0}))
      → S
      → List (Result (CliError p.InputError) Text)
      → Step S (Unit {0})
  for_each body s [] = (s, ok tt)
  for_each body s (err e ∷ queries) = (s, err (input_failed e))
  for_each body s (ok q ∷ queries) = and_then (body s q) λ s' _. for_each body s' queries

  unfoldable pub load_model : World → Step World (Model fl services.ModelError)
  load_model w =
      let out = Loading.load_model machine builders p.model_cache_dir w.assets in
      (record w { assets = out.0 }, map_err load_failed out.1 >>= λ bundle. ok (p.model_of bundle))

  unfoldable pub resolve :
      Option Text → Result CommandError (List (Result (CliError p.InputError) Text))
  resolve query = map_err input_failed (resolve_query_inputs query p.is_terminal p.stdin_lines)

  unfoldable pub start_engine : Result CommandError engine.State
  start_engine = map_err engine_failed (init_datafusion engine p.csv_path)

  -- A question to the semantic pipeline on a loaded model and a cache, and its answer printed.
  unfoldable pub semantic_query :
      Model fl services.ModelError
      → World × SemanticCache fl
      → Text
      → Step (World × SemanticCache fl) (Unit {0})
  semantic_query model (w, cache) q =
      let out =
        run_semantic_pipeline fl (with_model fl services model) (p.clock w.ticks)
          (record { llm = w.llm; cache = cache }) q in
      let printed =
        print_result (map_err semantic_failed out.1)
          (record w { llm = out.0.llm; ticks = suc w.ticks }) in
      ((printed.0, out.0.cache), printed.1)

  -- A question to the model that writes SQL, and the rows printed. The cache is not used.
  unfoldable pub ai_sql_query : World × engine.State → Text → Step (World × engine.State) (Unit {0})
  ai_sql_query (w, sql) q =
      let out = run_sql_query p.dispatch q (record {
        rest = record { llm = w.llm; cache = semantic_cache fl p.settings };
        sql = sql;
      }) in
      let printed =
        print_batches (map_err ai_sql_failed out.1 >>= λ found. ok found.1)
          (record w { llm = out.0.rest.llm }) in
      ((printed.0, out.0.sql), printed.1)

  unfoldable pub sql_query : World × engine.State → Text → Step (World × engine.State) (Unit {0})
  sql_query (w, sql) q =
      let out = execute_sql_query parser engine p.dispatch.max_sql_rows sql q in
      let printed = print_batches (map_err sql_failed out.1) w in ((printed.0, out.0), printed.1)
