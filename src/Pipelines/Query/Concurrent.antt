-- ===== src/Pipelines/Query/Concurrent.antt =====
-- src/pipelines/query/mod.rs and ollama.rs as the server runs them: one request of the semantic
-- pipeline as a state machine, between whose steps other requests may run.
--
-- A request is the point its future is at, with the locals that are still needed there. It advances
-- by one call of the cache, one pause or one HTTP request at a time, on the shared state; what it
-- computes from the result belongs to the same step. `Rest` and `Alone` compare it with the sequential
-- pipeline; Pipelines/Query/Serving interleaves many.
pub mod Steps
pub mod Rest
pub mod Alone
pub mod Locals
pub mod Cached
use rust_enterprise_query_en.Common.{
  ℕ, zero, suc, Bool, true, false, List, [], ◌∷◌, Option, none, some, Result, ok, err,
  if◌then◌else◌,
}
use rust_enterprise_query_en.Common.Text.{Text}
use rust_enterprise_query_en.Common.Floats.{Floats}
use rust_enterprise_query_en.Engines.Cache.{get_exact, get_similar, insert}
use rust_enterprise_query_en.Engines.Embeddings.{get_embeddings}
use rust_enterprise_query_en.Engines.Vector.{execute_fallback_search}
use rust_enterprise_query_en.Pipelines.Types.{
  SemanticResponse, ParsedQuestion, SemanticQueryResult, verified,
}
use rust_enterprise_query_en.Pipelines.Firewall.{FirewallError, verify_and_parse_llm_generation}
use rust_enterprise_query_en.Pipelines.Ollama.{LlmError, unreachable, pause, read_response}
use rust_enterprise_query_en.Pipelines.Prompts.{build_question_parser_prompt, build_semantic_prompt}
use rust_enterprise_query_en.Pipelines.Query.{
  Services, Error, State, search_failed, verification_failed, build_degraded_response,
  decode_cached, parse_question, first_embedding, retrieve,
}

module _ (fl : Floats) (services : Services fl) where
  open services use {client, store, JsonError}

  -- What the model is asked for, with the locals that the code after its reply uses.
  pub data Purpose : Type 0 where
    to_parse : Purpose
    to_generate : ParsedQuestion → List fl.F → List (Text × Text) → Purpose
    to_fall_back : List fl.F → SemanticResponse → List (Text × Text) → Purpose

  -- Where a request is: before the lookup of its text, before the pause or the sending of an attempt
  -- with `left` rounds of the loop to go, before the lookup of its vector, before the insertion of
  -- its answer, or at its end.
  pub data Pc : Type 0 where
    begun : Pc
    asking : Purpose → (attempt left : ℕ) → Option client.HttpError → Pc
    sending : Purpose → (attempt left : ℕ) → Option client.HttpError → Pc
    comparing : ParsedQuestion → List fl.F → Pc
    storing : List fl.F → SemanticResponse → List ℕ → Pc
    finished : Result (Error fl services) SemanticQueryResult → Pc

  -- The call of `prompt_model`.
  abbrev pub ask : Purpose → Pc
  ask purpose = asking purpose 0 2 none

  unfoldable pub prompt_of : Text → Purpose → Text
  prompt_of query to_parse = build_question_parser_prompt query
  prompt_of query (to_generate parsed v chunks) = build_semantic_prompt query chunks
  prompt_of query (to_fall_back v payload chunks) = build_semantic_prompt query chunks

  -- The final payload, encoded for the cache if it can be.
  unfoldable pub store_answer : List fl.F → SemanticResponse → Pc
  store_answer v payload = elim (services.to_vec (verified payload)) [
    | ok bytes ↦ storing v payload bytes
    | err _ ↦ finished (ok (verified payload))
  ]

  unfoldable pub store_checked : List fl.F → Result (FirewallError JsonError) SemanticResponse → Pc
  store_checked v (err e) = finished (err (verification_failed e))
  store_checked v (ok payload) = store_answer v payload

  unfoldable pub ask_again : List fl.F → SemanticResponse → List (Text × Text) → Pc
  ask_again v payload [] = store_answer v payload
  ask_again v payload (c ∷ cs) = ask (to_fall_back v payload (c ∷ cs))

  unfoldable pub fall_back : ParsedQuestion → List fl.F → SemanticResponse → Pc
  fall_back parsed v payload =
      elim (execute_fallback_search fl store services.chunk_json parsed.intent
        services.vector_db_uri) [
          | err e ↦ finished (err (search_failed e))
          | ok chunks ↦ ask_again v payload (services.iterate_chunks chunks)
        ]

  unfoldable pub after_check :
      ParsedQuestion → List fl.F → Result (FirewallError JsonError) SemanticResponse → Pc
  after_check parsed v (err e) = finished (err (verification_failed e))
  after_check parsed v (ok payload) =
      if payload.answer_found then store_answer v payload else fall_back parsed v payload

  unfoldable pub after_embedding : ParsedQuestion → Result (Error fl services) (List fl.F) → Pc
  after_embedding parsed (err e) = finished (err e)
  after_embedding parsed (ok v) = comparing parsed v

  unfoldable pub after_retrieval :
      ParsedQuestion → List fl.F → Result (Error fl services) (List (Text × Text)) → Pc
  after_retrieval parsed v (err e) = finished (err e)
  after_retrieval parsed v (ok chunks) = ask (to_generate parsed v chunks)

  -- What a request does with the reply of the model.
  unfoldable pub after_reply : Text → Purpose → Result (LlmError client.HttpError) Text → Pc
  after_reply query to_parse reply =
      let parsed = parse_question fl services query reply in
      after_embedding parsed (
        first_embedding fl services
          (get_embeddings fl services.max_batch services.model (parsed.intent ∷ [])))
  after_reply query (to_generate parsed v chunks) (err e) =
      finished (ok (build_degraded_response chunks (services.show_error e)))
  after_reply query (to_generate parsed v chunks) (ok raw) =
      after_check parsed v (verify_and_parse_llm_generation services.response_from_str raw chunks)
  after_reply query (to_fall_back v payload chunks) (err _) = store_answer v payload
  after_reply query (to_fall_back v payload chunks) (ok raw) =
      store_checked v (verify_and_parse_llm_generation services.response_from_str raw chunks)

  -- The end of a round of the loop of `prompt_model`.
  unfoldable pub after_response :
      Text → Purpose → (attempt left : ℕ) → Result client.HttpError client.Response → Pc
  after_response query purpose attempt left (ok res) =
      after_reply query purpose (read_response client res)
  after_response query purpose attempt left (err e) = asking purpose (suc attempt) left (some e)

  -- A decoded response of the cache is the answer.
  unfoldable pub after_lookup : Option SemanticQueryResult → Pc → Pc
  after_lookup (some res) next = finished (ok res)
  after_lookup none next = next

  -- One step of a request, at the time `now`.
  unfoldable pub advance : ℕ → Text → State fl services → Pc → State fl services × Pc
  advance now query s begun =
      let hit = get_exact fl now query s.cache in
      (record s { cache = hit.0 }, after_lookup (decode_cached fl services hit.1) (ask to_parse))
  advance now query s (asking purpose attempt zero last_err) =
      (s, after_reply query purpose (err (unreachable last_err)))
  advance now query s (asking purpose attempt (suc left) last_err) =
      (record s { llm = pause client attempt s.llm }, sending purpose attempt left last_err)
  advance now query s (sending purpose attempt left last_err) =
      let out = client.post s.llm (prompt_of query purpose) in
      (record s { llm = out.0 }, after_response query purpose attempt left out.1)
  advance now query s (comparing parsed v) =
      let hit = get_similar fl now v s.cache in
      (
        record s { cache = hit.0 },
        after_lookup (decode_cached fl services hit.1)
            (after_retrieval parsed v (retrieve fl services query parsed v)),
      )
  advance now query s (storing v payload bytes) =
      (record s { cache = insert fl now query v bytes s.cache }, finished (ok (verified payload)))
  advance now query s (finished r) = (s, finished r)
