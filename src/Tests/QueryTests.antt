-- ===== src/Tests/QueryTests.antt =====
-- The semantic pipeline at a concrete input.
use mathlib.Core.Path.{subst}
use rust_enterprise_query_en.Common.{
  ℕ, ◌==◌, Bool, true, false, List, [], ◌∷◌, ◌++◌, none, some, Result, ok, err, ◌≡◌, refl, length,
  take, drop, take-length, drop-length, if◌then◌else◌,
}
use rust_enterprise_query_en.Common.Text.{codes}
use rust_enterprise_query_en.Pipelines.Types.{
  SemanticResponse, SemanticQueryResult, verified, degraded,
}
use rust_enterprise_query_en.Pipelines.Query.{Services, Times, State, run_semantic_pipeline}
use rust_enterprise_query_en.Pipelines.Query.Grounding.{Good, run_semantic_pipeline-Good}
use rust_enterprise_query_en.Pipelines.Query.Router.{
  Dispatch, Full, run_routed_pipeline, run_query_pipeline,
}
use rust_enterprise_query_en.Common.Text.{text_eq}
use rust_enterprise_query_en.Pipelines.Firewall.{parse_llm_json}
use rust_enterprise_query_en.Pipelines.Prompts.{build_routing_prompt}
use rust_enterprise_query_en.Pipelines.Ollama.{prompt_model, attempts, pause, read_response}
use rust_enterprise_query_en.Pipelines.Query.Router.{ask, uppercase_is_sql}
use rust_enterprise_query_en.Pipelines.Query.Router.Agreement.{Agree, dispatchers-Agree}
use rust_enterprise_query_en.Pipelines.Query.Router.Guarding.{Guarded, dispatch-Guarded}
use rust_enterprise_query_en.Tests.Concrete.{parser, engine, numbers, store, client, name_of}

-- The flag, two lengths and the texts.
abbrev pub bytes_of : SemanticResponse → List ℕ
bytes_of r =
    (if r.answer_found then 1 else 0)
    ∷ length r.answer
    ∷ length r.exact_quote
    ∷ (r.answer ++ (r.exact_quote ++ r.source_chunk_id))

abbrev written : SemanticQueryResult → Result ℕ (List ℕ)
written (degraded d) = err 0
written (verified r) = ok (bytes_of r)

abbrev read : List ℕ → Result ℕ SemanticQueryResult
read (b ∷ n ∷ m ∷ rest) = ok (
    verified (record {
      answer_found = b == 1;
      answer = take n rest;
      exact_quote = take m (drop n rest);
      source_chunk_id = drop m (drop n rest);
    }))
read _ = err 0

flag_back : (b : Bool) → ((if b then 1 else 0) == 1) ≡ b
flag_back true = refl
flag_back false = refl

pub read_bytes : (r : SemanticResponse) → read (bytes_of r) ≡ ok (verified r)
read_bytes r = rw (
  flag_back r.answer_found,
  take-length r.answer (r.exact_quote ++ r.source_chunk_id),
  drop-length r.answer (r.exact_quote ++ r.source_chunk_id),
  take-length r.exact_quote r.source_chunk_id,
  drop-length r.exact_quote r.source_chunk_id,
)

pub read_back :
    (r : SemanticResponse) (bytes : List ℕ)
    → written (verified r) ≡ ok bytes
    → read bytes ≡ ok (verified r)
read_back r bytes h =
    let e : bytes_of r ≡ bytes = cc in subst (λ b. read b ≡ ok (verified r)) e (read_bytes r)

abbrev pub services : Services numbers
services = record {
  client = client;
  store = store;
  lancedb_conn = some 0;
  vector_db_uri = codes "db";
  ModelError = ℕ;
  max_batch = 8;
  model = λ sentences. ok (2, 1 ∷ 0 ∷ []);
  ScorerError = ℕ;
  cross_encoder = none;
  chunk_json = name_of;
  iterate = λ m. m;
  iterate_chunks = λ m. m;
  sixty = 60;
  JsonError = ℕ;
  question_from_str = λ s. err 0;
  response_from_str = λ s. ok (record {
    answer_found = true;
    answer = codes "yes";
    exact_quote = codes "a";
    source_chunk_id = codes "1";
  });
  from_slice = read;
  to_vec = written;
  show_error = λ e. codes "offline";
}

abbrev pub times : Times
times = record { at_exact = 1; at_similar = 2; at_insert = 3 }

abbrev pub start : State numbers services
start = record {
  llm = 0;
  cache = record { entries = []; capacity = 2; threshold = 1; poisoned = false };
}

run_semantic_pipeline-Good_example :
    Good numbers services (run_semantic_pipeline numbers services times start (codes "q"))
run_semantic_pipeline-Good_example =
    run_semantic_pipeline-Good numbers services read_back times start (codes "q") tt

abbrev pub dispatch : Dispatch numbers services parser engine ℕ
dispatch = record {
  decision_from_str = λ s. ok (record { route = codes "SQL" });
  sql_from_str = λ s. ok (record { query = codes "SELECT 1" });
  value_from_str = λ s. ok 0;
  max_sql_rows = some 5;
}

abbrev full : Full numbers services parser engine ℕ
full = record { rest = record start { llm = 600 }; sql = 0 }

dispatch-Guarded_example :
    Guarded dispatch 0 (run_routed_pipeline dispatch times (codes "q") full).0.sql
    × Guarded dispatch 0 (run_query_pipeline dispatch times (codes "q") full).0.sql
dispatch-Guarded_example = dispatch-Guarded dispatch times (codes "q") full

asked : (ask dispatch (build_routing_prompt (codes "q")) full).1 ≡ ok (codes "yes")
unfolding ask prompt_model attempts pause read_response
asked = refl

decided :
    parse_llm_json dispatch.decision_from_str (codes "yes") ≡ ok (record { route = codes "SQL" })
unfolding parse_llm_json
decided = refl

sql_route : text_eq (codes "SQL") (codes "SQL") ≡ uppercase_is_sql (codes "SQL")
unfolding text_eq uppercase_is_sql
sql_route = refl

dispatchers-Agree_example :
    Agree dispatch
      (uppercase_is_sql (codes "SQL"))
      (run_routed_pipeline dispatch times (codes "q") full)
      (run_query_pipeline dispatch times (codes "q") full)
dispatchers-Agree_example =
    dispatchers-Agree dispatch times (codes "q") (codes "yes") full (record { route = codes "SQL" })
      asked decided sql_route
