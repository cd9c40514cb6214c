-- ===== src/Pipelines/Query.antt =====
-- src/pipelines/query/mod.rs: the semantic pipeline over the cache, the model client, the search, the
-- re-ranking and the firewall. What other crates supply is a parameter. One run is a sequence of
-- steps on the client's state and the cache, without others in between; reads of the store see one
-- state of it.
pub mod Degraded
pub mod Grounding
pub mod Remembering
pub mod Repeat
pub mod Setup
pub mod Offline
pub mod Router
pub mod Concurrent
pub mod Serving
use rust_enterprise_query_en.Common.{
  ℕ, Bool, true, false, List, [], ◌∷◌, Option, none, some, Result, ok, err, ◌>>=◌, map_err, map,
  if◌then◌else◌, ◌++◌,
}
use rust_enterprise_query_en.Common.Text.{Text, codes}
use rust_enterprise_query_en.Common.Floats.{Floats}
use rust_enterprise_query_en.Engines.Cache.{SemanticCache, get_exact, get_similar, insert}
use rust_enterprise_query_en.Engines.Embeddings.{Model, EmbeddingError, get_embeddings}
use rust_enterprise_query_en.Engines.Rerank.{RerankError, rerank_candidates_with_scorer}
use rust_enterprise_query_en.Engines.Vector.{
  VectorStore, Row, execute_hybrid_search, execute_hybrid_search_on_connection,
  execute_fallback_search,
}
use rust_enterprise_query_en.Pipelines.Types.{
  SemanticResponse, ParsedQuestion, DegradedChunk, SemanticQueryResult, verified, degraded,
}
use rust_enterprise_query_en.Pipelines.Firewall.{
  FirewallError, parse_llm_json, verify_and_parse_llm_generation,
}
use rust_enterprise_query_en.Pipelines.Ollama.{HttpClient, LlmError, prompt_model}
use rust_enterprise_query_en.Pipelines.Prompts.{build_question_parser_prompt, build_semantic_prompt}

-- What the pipeline calls: the fields of `AppState` that are only read, the iteration order of the
-- maps, and serde's functions for the types that are parsed and written.
pub record Services (fl : Floats) : Type 1 where
  pub client : HttpClient
  pub store : VectorStore fl.F
  pub lancedb_conn : Option store.Connection
  pub vector_db_uri : Text
  pub ModelError : Type 0
  pub max_batch : ℕ
  pub model : Model fl ModelError
  pub ScorerError : Type 0
  pub cross_encoder : Option (Text → List Text → Result ScorerError (List fl.F))
  pub chunk_json : Row → Text
  pub iterate : List (Text × fl.F) → List (Text × fl.F)
  pub iterate_chunks : List (Text × Text) → List (Text × Text)
  pub sixty : fl.F
  pub JsonError : Type 0
  pub question_from_str : Text → Result JsonError ParsedQuestion
  pub response_from_str : Text → Result JsonError SemanticResponse
  pub from_slice : List ℕ → Result JsonError SemanticQueryResult
  pub to_vec : SemanticQueryResult → Result JsonError (List ℕ)
  pub show_error : LlmError client.HttpError → Text

-- The readings of the clock by the three calls of the cache.
pub record Times : Type 0 where
  pub at_exact : ℕ
  pub at_similar : ℕ
  pub at_insert : ℕ

pub data PipelineError (E S R J : Type 0) : Type 0 where
  embedding_failed : EmbeddingError E → PipelineError E S R J
  no_embedding : PipelineError E S R J
  search_failed : S → PipelineError E S R J
  rerank_failed : RerankError R → PipelineError E S R J
  verification_failed : FirewallError J → PipelineError E S R J

-- The question as it is, without filters.
unfoldable pub raw_question : Text → ParsedQuestion
raw_question query = record { intent = query; filters = [] }

abbrev pub degraded_chunk : Text × Text → DegradedChunk
degraded_chunk (id, content) = record { chunk_id = id; content = content }

unfoldable pub build_degraded_response : List (Text × Text) → Text → SemanticQueryResult
build_degraded_response chunks error = degraded (record {
  degraded = true;
  message = codes "LLM is offline or timed out: " ++ error;
  retrieved_chunks = map degraded_chunk chunks;
})

module _ (fl : Floats) (services : Services fl) where
  open services use {client, store, ModelError, ScorerError, JsonError}

  abbrev pub Error : Type 0
  Error = PipelineError ModelError store.StoreError ScorerError JsonError

  pub record State : Type 0 where
    pub llm : client.World
    pub cache : SemanticCache fl

  abbrev pub Outcome : Type 0
  Outcome = State × Result Error SemanticQueryResult

  -- A response of the cache counts if it can be decoded.
  unfoldable pub decode_cached : Option (List ℕ) → Option SemanticQueryResult
  decode_cached none = none
  decode_cached (some cached_bytes) = elim (services.from_slice cached_bytes) [
    | ok res ↦ some res
    | err _ ↦ none
  ]

  unfoldable pub parse_question : Text → Result (LlmError client.HttpError) Text → ParsedQuestion
  parse_question query (err _) = raw_question query
  parse_question query (ok raw) = elim (parse_llm_json services.question_from_str raw) [
    | ok parsed ↦ parsed
    | err _ ↦ raw_question query
  ]

  unfoldable pub first_embedding :
      Result (EmbeddingError ModelError) (List (List fl.F)) → Result Error (List fl.F)
  first_embedding (err e) = err (embedding_failed e)
  first_embedding (ok []) = err no_embedding
  first_embedding (ok (v ∷ vs)) = ok v

  -- The search, over the connection that is kept if there is one.
  unfoldable pub search : List fl.F → List Text → Result store.StoreError (List (Text × Text))
  search v filters = elim services.lancedb_conn [
    | some conn ↦
        execute_hybrid_search_on_connection fl store services.chunk_json services.iterate
          services.sixty v conn filters
    | none ↦
        execute_hybrid_search fl store services.chunk_json services.iterate services.sixty v
          services.vector_db_uri filters
  ]

  unfoldable pub rerank : Text → List (Text × Text) → Result Error (List (Text × Text))
  rerank query chunks = elim services.cross_encoder [
    | some scorer ↦
        map_err rerank_failed (rerank_candidates_with_scorer fl Text scorer chunks query 3)
    | none ↦ ok chunks
  ]

  -- The candidate chunks for a question.
  unfoldable pub retrieve : Text → ParsedQuestion → List fl.F → Result Error (List (Text × Text))
  retrieve query parsed v = do
    chunks ← map_err search_failed (search v parsed.filters)
    rerank query chunks

  -- The final payload is stored in the cache, if it can be encoded, and returned.
  unfoldable pub finish : ℕ → State → Text → List fl.F → SemanticResponse → Outcome
  finish now s query v payload = elim (services.to_vec (verified payload)) [
    | ok bytes ↦ (record s { cache = insert fl now query v bytes s.cache }, ok (verified payload))
    | err _ ↦ (s, ok (verified payload))
  ]

  unfoldable pub finish_checked :
      ℕ → State → Text → List fl.F → Result (FirewallError JsonError) SemanticResponse → Outcome
  finish_checked now s query v (err e) = (s, err (verification_failed e))
  finish_checked now s query v (ok payload) = finish now s query v payload

  -- What follows the second question to the model: if it is offline, the first payload stands.
  unfoldable pub conclude_fallback :
      ℕ
      → State
      → Text
      → List fl.F
      → SemanticResponse
      → List (Text × Text)
      → Result (LlmError client.HttpError) Text
      → Outcome
  conclude_fallback now s query v payload fb_chunks (err _) = finish now s query v payload
  conclude_fallback now s query v payload fb_chunks (ok raw) =
      finish_checked now s query v
        (verify_and_parse_llm_generation services.response_from_str raw fb_chunks)

  unfoldable pub fallback_with :
      ℕ → State → Text → List fl.F → SemanticResponse → List (Text × Text) → Outcome
  fallback_with now s query v payload [] = finish now s query v payload
  fallback_with now s query v payload (c ∷ cs) =
      let out = prompt_model client (build_semantic_prompt query (c ∷ cs)) s.llm in
      conclude_fallback now (record s { llm = out.0 }) query v payload (c ∷ cs) out.1

  unfoldable pub fallback :
      ℕ → State → Text → ParsedQuestion → List fl.F → SemanticResponse → Outcome
  fallback now s query parsed v payload =
      elim (execute_fallback_search fl store services.chunk_json parsed.intent
        services.vector_db_uri) [
          | err e ↦ (s, err (search_failed e))
          | ok chunks ↦ fallback_with now s query v payload (services.iterate_chunks chunks)
        ]

  -- A payload that found no answer goes on to the fallback.
  unfoldable pub conclude :
      ℕ
      → State
      → Text
      → ParsedQuestion
      → List fl.F
      → Result (FirewallError JsonError) SemanticResponse
      → Outcome
  conclude now s query parsed v (err e) = (s, err (verification_failed e))
  conclude now s query parsed v (ok payload) =
      if payload.answer_found
      then finish now s query v payload
      else fallback now s query parsed v payload

  unfoldable pub conclude_generation :
      ℕ
      → State
      → Text
      → ParsedQuestion
      → List fl.F
      → List (Text × Text)
      → Result (LlmError client.HttpError) Text
      → Outcome
  conclude_generation now s query parsed v chunks (err e) =
      (s, ok (build_degraded_response chunks (services.show_error e)))
  conclude_generation now s query parsed v chunks (ok raw) =
      conclude now s query parsed v
        (verify_and_parse_llm_generation services.response_from_str raw chunks)

  unfoldable pub generate :
      ℕ → State → Text → ParsedQuestion → List fl.F → Result Error (List (Text × Text)) → Outcome
  generate now s query parsed v (err e) = (s, err e)
  generate now s query parsed v (ok chunks) =
      let out = prompt_model client (build_semantic_prompt query chunks) s.llm in
      conclude_generation now (record s { llm = out.0 }) query parsed v chunks out.1

  -- The answer of the cache, or what follows.
  unfoldable pub answer_or : State → Option SemanticQueryResult → Outcome → Outcome
  answer_or s (some res) next = (s, ok res)
  answer_or s none next = next

  unfoldable pub with_vector :
      Times → State → Text → ParsedQuestion → Result Error (List fl.F) → Outcome
  with_vector times s query parsed (err e) = (s, err e)
  with_vector times s query parsed (ok v) =
      let hit = get_similar fl times.at_similar v s.cache in
      let s' = record s { cache = hit.0 } in
      answer_or s' (decode_cached hit.1)
        (generate times.at_insert s' query parsed v (retrieve query parsed v))

  unfoldable pub with_question : Times → State → Text → ParsedQuestion → Outcome
  with_question times s query parsed =
      with_vector times s query parsed
        (first_embedding (get_embeddings fl services.max_batch services.model (parsed.intent ∷ [])))

  unfoldable pub ask_parser : Times → State → Text → Outcome
  ask_parser times s query =
      let out = prompt_model client (build_question_parser_prompt query) s.llm in
      with_question times (record s { llm = out.0 }) query (parse_question query out.1)

  unfoldable pub run_semantic_pipeline : Times → State → Text → Outcome
  run_semantic_pipeline times s query =
      let hit = get_exact fl times.at_exact query s.cache in
      let s' = record s { cache = hit.0 } in
      answer_or s' (decode_cached hit.1) (ask_parser times s' query)
