-- ===== src/Tests/RepeatTests.antt =====
-- The semantic pipeline for a question that is asked again, and without the language model.
use rust_enterprise_query_en.Common.{ℕ, true, List, [], ◌∷◌, ok, err, ◌≡◌, ◌⊎◌, refl, false}
use rust_enterprise_query_en.Common.Text.{Text, codes}
use mathlib.Core.Option
use rust_enterprise_query_en.Common.Maps
use rust_enterprise_query_en.Common.Text.{
  trim, trim_start, trim_end, cons_trimmed, is_whitespace, is_empty, strip_prefix, strip_suffix,
  starts_with, contains, text_eq, text_leb,
}
use rust_enterprise_query_en.Common.Order.{sort_by, insert_sorted}
use rust_enterprise_query_en.Engines.Cache.{get_exact, find_exact, get_similar, best_from}
use rust_enterprise_query_en.Engines.Embeddings.{
  get_embeddings, get_embeddings_batch, embed_flat, try_new, checked_mul, checked_add, get_range,
  row, rows_from, into_vecs, normalize_chunks, normalize_vector_slice, max_abs_of, scaled_norm,
  divide_by_norm,
}
use rust_enterprise_query_en.Engines.RankFusion.{
  add_scores, add_score, reciprocal, ranks_before, fuse_ranked_candidates,
}
use rust_enterprise_query_en.Engines.Vector.{
  apply_filters, extract_chunks_from_stream, extract_rows, rank_chunks, take_chunks,
  execute_hybrid_search_on_connection,
}
use rust_enterprise_query_en.Pipelines.Firewall.{
  strip_first, open_fences, close_fence, clean_json, parse_llm_json, find_chunk, check_quote,
  verify_response, verify_and_parse_llm_generation,
}
use rust_enterprise_query_en.Pipelines.Types.{SemanticResponse, verified}
use rust_enterprise_query_en.Pipelines.Ollama.{
  HttpClient, prompt_model, attempts, pause, read_response,
}
use rust_enterprise_query_en.Pipelines.Query.{
  answer_or, decode_cached, ask_parser, with_question, parse_question, with_vector, generate,
  search, rerank, conclude_generation, conclude, finish, Services, Times, State,
  run_semantic_pipeline, raw_question, retrieve, first_embedding,
}
use rust_enterprise_query_en.Pipelines.Query.Offline.{Degrades, run_semantic_pipeline-Degrades}
use rust_enterprise_query_en.Pipelines.Query.Repeat.{run_semantic_pipeline_repeats}
use rust_enterprise_query_en.Pipelines.Query.Remembering.{Holds}
use rust_enterprise_query_en.Tests.Concrete.{numbers, client}
use rust_enterprise_query_en.Tests.QueryTests.{services, times, bytes_of, read_bytes}

-- The answer of the model, which quotes the first chunk.
abbrev answer : SemanticResponse
answer = record {
  answer_found = true;
  answer = codes "yes";
  exact_quote = codes "a";
  source_chunk_id = codes "1";
}

-- The services over a client.
abbrev over : HttpClient → Services numbers
over c = record services { client = c; show_error = λ e. codes "offline" }

abbrev online : State numbers (over client)
online = record {
  llm = 600;
  cache = record { entries = []; capacity = 2; threshold = 1; poisoned = false };
}

abbrev vector : List ℕ
vector = 1 ∷ 0 ∷ []

embedded :
    (c : HttpClient)
    → first_embedding numbers
        (over c)
        (get_embeddings numbers services.max_batch services.model (codes "q" ∷ []))
      ≡ ok vector
unfolding first_embedding get_embeddings get_embeddings_batch embed_flat try_new checked_mul
    checked_add get_range row rows_from into_vecs normalize_chunks normalize_vector_slice max_abs_of
    scaled_norm divide_by_norm Option.bind
embedded c = refl

abbrev chunks : List (Text × Text)
chunks = (codes "1", codes "ab") ∷ (codes "2", codes "cd") ∷ []

found :
    (c : HttpClient)
    → retrieve numbers (over c) (codes "q") (raw_question (codes "q")) vector ≡ ok chunks
unfolding retrieve search rerank raw_question execute_hybrid_search_on_connection apply_filters
    extract_chunks_from_stream extract_rows rank_chunks take_chunks fuse_ranked_candidates
    add_scores add_score reciprocal ranks_before Maps.lookup Maps.insert Maps.remove sort_by
    insert_sorted text_eq text_leb
found c = refl

checked :
    verify_and_parse_llm_generation services.response_from_str (codes "yes") chunks ≡ ok answer
unfolding verify_and_parse_llm_generation verify_response check_quote find_chunk parse_llm_json
    clean_json close_fence open_fences strip_first trim trim_start trim_end cons_trimmed
    is_whitespace is_empty strip_prefix strip_suffix starts_with contains text_eq
checked = refl

answered :
    (run_semantic_pipeline numbers (over client) times online (codes "q")).1 ≡ ok (verified answer)
unfolding run_semantic_pipeline answer_or decode_cached get_exact find_exact ask_parser
    with_question parse_question with_vector prompt_model attempts pause read_response get_similar
    best_from generate conclude_generation conclude finish parse_llm_json raw_question
answered = rw (embedded client, found client, checked) refl

abbrev later : Times
later = record { at_exact = 11; at_similar = 12; at_insert = 13 }

run_semantic_pipeline_repeats_example :
    Holds numbers (over client) online.cache answer
    ⊎ (((run_semantic_pipeline numbers
            (over client)
            later
            (run_semantic_pipeline numbers (over client) times online (codes "q")).0
            (codes "q")).1
          ≡ ok (verified answer))
        × ((run_semantic_pipeline numbers
              (over client)
              later
              (run_semantic_pipeline numbers (over client) times online (codes "q")).0
              (codes "q")).0.llm
            ≡ (run_semantic_pipeline numbers (over client) times online (codes "q")).0.llm))
run_semantic_pipeline_repeats_example =
    run_semantic_pipeline_repeats numbers (over client) (λ r. (bytes_of r, refl, read_bytes r))
      times later (codes "q") answer online (refl, tt) answered

-- A client whose requests all fail.
abbrev dead : HttpClient
dead = record {
  World = ℕ;
  HttpError = ℕ;
  Response = ℕ;
  post = λ w p. (w, err 7);
  json = λ r. err 8;
  sleep = λ w ms. w;
}

dead_offline : (w : ℕ) (prompt : Text) → (e : ℕ) × ((dead.post w prompt).1 ≡ err e)
dead_offline w prompt = (7, refl)

abbrev alone : State numbers (over dead)
alone = record { llm = 600; cache = online.cache }

run_semantic_pipeline-Degrades_example :
    Degrades numbers
      (over dead)
      alone.cache
      chunks
      (run_semantic_pipeline numbers (over dead) times alone (codes "q"))
unfolding get_exact find_exact get_similar best_from
run_semantic_pipeline-Degrades_example =
    run_semantic_pipeline-Degrades numbers (over dead) dead_offline times alone (codes "q") vector
      chunks refl (embedded dead) refl (found dead)
