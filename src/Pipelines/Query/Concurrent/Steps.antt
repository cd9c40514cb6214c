-- ===== src/Pipelines/Query/Concurrent/Steps.antt =====
-- How many steps a request of src/pipelines/query/mod.rs takes at most.
use rust_enterprise_query_en.Common.{
  ℕ, zero, suc, ◌+◌, ◌*◌, ◌≤◌, ◌<◌, Bool, true, false, List, [], ◌∷◌, Option, none, some, Result,
  ok, err, ◌≡◌, refl, inl, inr, arith, Result-cases, ◌⊎◌, if_keeps,
}
use rust_enterprise_query_en.Common.Text.{Text}
use rust_enterprise_query_en.Common.Floats.{Floats}
use rust_enterprise_query_en.Engines.Cache.{get_exact, get_similar}
use rust_enterprise_query_en.Engines.Embeddings.{get_embeddings}
use rust_enterprise_query_en.Engines.Vector.{execute_fallback_search}
use rust_enterprise_query_en.Pipelines.Types.{
  SemanticResponse, ParsedQuestion, SemanticQueryResult, verified,
}
use rust_enterprise_query_en.Pipelines.Firewall.{verify_and_parse_llm_generation}
use rust_enterprise_query_en.Pipelines.Ollama.{LlmError, unreachable, read_response}
use rust_enterprise_query_en.Pipelines.Query.{
  Services, Error, State, decode_cached, parse_question, first_embedding, retrieve,
}
use rust_enterprise_query_en.Pipelines.Query.Concurrent.{
  Purpose, Pc, to_parse, to_generate, to_fall_back, begun, asking, sending, comparing, storing,
  finished, ask, prompt_of, store_answer, store_checked, ask_again, fall_back, after_check,
  after_embedding, after_retrieval, after_reply, after_response, after_lookup, advance,
}

module _ (fl : Floats) (services : Services fl) where
  open services use {client, store, JsonError}

  abbrev pub is_finished : Pc fl services → Bool
  is_finished (finished r) = true
  is_finished _ = false

  pub finished_or :
      (pc : Pc fl services)
      → ((r : Result (Error fl services) SemanticQueryResult) × (pc ≡ finished r))
        ⊎ (is_finished pc ≡ false)
  finished_or (finished r) = inl (r, refl)
  finished_or begun = inr refl
  finished_or (asking purpose attempt left last_err) = inr refl
  finished_or (sending purpose attempt left last_err) = inr refl
  finished_or (comparing parsed v) = inr refl
  finished_or (storing v payload bytes) = inr refl

  -- An upper bound of the steps that are left after the reply.
  unfoldable pub after_of : Purpose fl services → ℕ
  after_of to_parse = 12
  after_of (to_generate parsed v chunks) = 6
  after_of (to_fall_back v payload chunks) = 1

  -- An upper bound of the steps that are left.
  unfoldable pub remaining : Pc fl services → ℕ
  remaining begun = 18
  remaining (asking purpose attempt left last_err) = after_of purpose + 2 * left + 1
  remaining (sending purpose attempt left last_err) = after_of purpose + 2 * left + 2
  remaining (comparing parsed v) = 12
  remaining (storing v payload bytes) = 1
  remaining (finished r) = 0

  module _ (query : Text) where
    store_answer-remaining :
        (v : List fl.F) (payload : SemanticResponse)
        → remaining (store_answer fl services v payload) ≤ 1
    unfolding store_answer remaining
    store_answer-remaining v payload = elim (Result-cases (services.to_vec (verified payload))) [
      | inl (_, e) ↦ rw (e, remaining) (omega arith)
      | inr (_, e) ↦ rw (e, remaining) (omega arith)
    ]

    ask_again-remaining :
        (v : List fl.F) (payload : SemanticResponse) (chunks : List (Text × Text))
        → remaining (ask_again fl services v payload chunks) ≤ 6
    unfolding ask_again remaining after_of
    ask_again-remaining v payload [] = let bound = store_answer-remaining v payload in omega arith
    ask_again-remaining v payload (c ∷ cs) = omega arith

    fall_back-remaining :
        (parsed : ParsedQuestion) (v : List fl.F) (payload : SemanticResponse)
        → remaining (fall_back fl services parsed v payload) ≤ 6
    unfolding fall_back remaining
    fall_back-remaining parsed v payload =
        elim (Result-cases (
          execute_fallback_search fl store services.chunk_json parsed.intent
            services.vector_db_uri)) [
              | inl (chunks, e) ↦
                  rw (e, remaining) (ask_again-remaining v payload (services.iterate_chunks chunks))
              | inr (_, e) ↦ rw (e, remaining) (omega arith)
            ]

    after_reply-remaining :
        (purpose : Purpose fl services) (reply : Result (LlmError client.HttpError) Text)
        → remaining (after_reply fl services query purpose reply) ≤ after_of purpose
    unfolding after_reply after_of remaining after_embedding after_check store_checked
    after_reply-remaining to_parse reply =
        let parsed = parse_question fl services query reply in
        elim (Result-cases (
          first_embedding fl services
            (get_embeddings fl services.max_batch services.model (parsed.intent ∷ [])))) [
              | inl (_, e) ↦ rw e (omega arith)
              | inr (_, e) ↦ rw e (omega arith)
            ]
    after_reply-remaining (to_generate parsed v chunks) (err e) = omega arith
    after_reply-remaining (to_generate parsed v chunks) (ok raw) =
        elim (Result-cases
          (verify_and_parse_llm_generation services.response_from_str raw chunks)) [
            | inl (payload, e) ↦ rw e (
                if_keeps (λ pc. remaining pc ≤ 6) payload.answer_found
                  (store_answer fl services v payload) (fall_back fl services parsed v payload)
                  (let bound = store_answer-remaining v payload in omega arith)
                  (fall_back-remaining parsed v payload))
            | inr (_, e) ↦ rw e (omega arith)
          ]
    after_reply-remaining (to_fall_back v payload chunks) (err e) = store_answer-remaining v payload
    after_reply-remaining (to_fall_back v payload chunks) (ok raw) =
        elim (Result-cases
          (verify_and_parse_llm_generation services.response_from_str raw chunks)) [
            | inl (payload', e) ↦ rw e (store_answer-remaining v payload')
            | inr (_, e) ↦ rw e (omega arith)
          ]

    after_response-remaining :
        (purpose : Purpose fl services) (attempt left : ℕ)
        (response : Result client.HttpError client.Response)
        → remaining (after_response fl services query purpose attempt left response)
          ≤ after_of purpose + 2 * left + 1
    unfolding after_response remaining
    after_response-remaining purpose attempt left (ok res) =
        omega (arith, after_reply-remaining purpose (read_response client res))
    after_response-remaining purpose attempt left (err e) = omega arith

    after_lookup-remaining :
        (hit : Option SemanticQueryResult) (pc : Pc fl services) (n : ℕ)
        → remaining pc ≤ n
        → remaining (after_lookup fl services hit pc) ≤ n
    unfolding after_lookup remaining
    after_lookup-remaining none pc n h = h
    after_lookup-remaining (some res) pc n h = omega arith

    after_retrieval-remaining :
        (parsed : ParsedQuestion) (v : List fl.F)
        (chunks : Result (Error fl services) (List (Text × Text)))
        → remaining (after_retrieval fl services parsed v chunks) ≤ 11
    unfolding after_retrieval remaining after_of
    after_retrieval-remaining parsed v (err e) = omega arith
    after_retrieval-remaining parsed v (ok chunks) = omega arith

    -- Every step of a request that is not at its end brings it nearer.
    pub advance-remaining :
        (now : ℕ) (s : State fl services) (pc : Pc fl services)
        → is_finished pc ≡ false
        → remaining (advance fl services now query s pc).1 < remaining pc
    unfolding advance remaining after_of
    advance-remaining now s begun h = omega (
      arith,
      after_lookup-remaining (decode_cached fl services (get_exact fl now query s.cache).1)
          (ask fl services to_parse) 17 (omega arith),
    )
    advance-remaining now s (asking purpose attempt zero last_err) h =
        omega (arith, after_reply-remaining purpose (err (unreachable last_err)))
    advance-remaining now s (asking purpose attempt (suc left) last_err) h = omega arith
    advance-remaining now s (sending purpose attempt left last_err) h =
        let reply = (client.post s.llm (prompt_of fl services query purpose)).1 in
        omega (arith, after_response-remaining purpose attempt left reply)
    advance-remaining now s (comparing parsed v) h =
        let bound = after_retrieval-remaining parsed v (retrieve fl services query parsed v) in
        omega (
          arith,
          after_lookup-remaining (decode_cached fl services (get_similar fl now v s.cache).1)
              (after_retrieval fl services parsed v (retrieve fl services query parsed v)) 11 bound,
        )
    advance-remaining now s (storing v payload bytes) h = omega arith
    advance-remaining now s (finished r) h = ground arith
