-- ===== src/Tests/CommandTests.antt =====
-- The commands at concrete inputs.
use rust_enterprise_query_en.Common.{
  ℕ, false, List, [], ◌∷◌, none, Result, ok, err, ◌≡◌, ◌⊎◌, map, some,
}
use rust_enterprise_query_en.Common.Text.{Text, codes}
use rust_enterprise_query_en.Engines.Loading.{load_model}
use rust_enterprise_query_en.Gateway.Cli.{CliError, stdin_failed}
use rust_enterprise_query_en.Gateway.Commands.{Process, World, for_each, sql_query, ai_sql_query}
use rust_enterprise_query_en.Engines.Embeddings.{Model}
use rust_enterprise_query_en.Gateway.Commands as Commands
use rust_enterprise_query_en.Gateway.Commands.Run.{run_ask_semantic}
use rust_enterprise_query_en.Gateway.Commands.Answers.{Printed, run_ask_semantic-Printed}
use rust_enterprise_query_en.Tests.QueryTests.{read_back}
use rust_enterprise_query_en.Gateway.Commands.Ask.{ask_queries}
use rust_enterprise_query_en.Engines.Sql.Laws.{Reached}
use rust_enterprise_query_en.Gateway.Commands.Statements.{Engine, queries-Reached}
use rust_enterprise_query_en.Gateway.Commands.Loads.{ask_queries_load_once}
use rust_enterprise_query_en.Tests.Concrete.{numbers, parser, engine}
use rust_enterprise_query_en.Tests.ModelTests.{machine, builders, fresh}
use rust_enterprise_query_en.Tests.ImportTests.{table, rows}
use rust_enterprise_query_en.Tests.QueryTests.{services, dispatch}

abbrev process : Process
process = record {
  fl = numbers;
  services = services;
  parser = parser;
  engine = engine;
  JsonValue = ℕ;
  dispatch = dispatch;
  machine = machine;
  builders = builders;
  client_built = ok tt;
  model_of = λ bundle. services.model;
  model_cache_dir = none;
  csv_path = none;
  settings = record {
    capacity = none;
    threshold = none;
    query_chars = none;
    default_threshold = 1;
  };
  clock = λ n. record { at_exact = n; at_similar = n; at_insert = n };
  InputError = ℕ;
  is_terminal = false;
  stdin_lines = [];
  result_to_string = λ res. ok (codes "{}");
  ingestion = table;
  connected = ok tt;
  CsvError = ℕ;
  open_csv = λ path. ok (map ok rows);
  llm_online = false;
  report_to_string = λ report. ok (codes "{}");
  Address = ℕ;
  AddressError = ℕ;
  parse_address = λ host port. ok port;
}

abbrev world : World process
world = record { assets = fresh; llm = 600; db = []; ticks = 0; out = [] }

-- Two questions, and then an error of the input.
abbrev queries : List (Result (CliError ℕ) Text)
queries = ok (codes "SELECT 1") ∷ ok (codes "SELECT 2") ∷ err (stdin_failed 5) ∷ []

queries-Reached_example :
    Reached process.parser process.engine 0
      (for_each process (sql_query process) (world, 0) queries).0.1
    × Reached process.parser process.engine 0
        (for_each process (ai_sql_query process) (world, 0) queries).0.1
    × Engine process (ask_queries process world queries).0
queries-Reached_example = queries-Reached process queries world 0

ask_queries_load_once_example :
    ((ask_queries process world queries).0.world.assets ≡ fresh)
    ⊎ ((ask_queries process world queries).0.world.assets
        ≡ (load_model machine builders none fresh).0)
ask_queries_load_once_example = ask_queries_load_once process world queries

run_ask_semantic-Printed_example :
    ((run_ask_semantic process (some (codes "q")) world).0.out ≡ [])
    ⊎ ((model : Model numbers ℕ) × ((Commands.load_model process world).1 ≡ ok model)
        × Printed process read_back model []
            (run_ask_semantic process (some (codes "q")) world).0.out)
run_ask_semantic-Printed_example =
    run_ask_semantic-Printed process read_back (some (codes "q")) world
