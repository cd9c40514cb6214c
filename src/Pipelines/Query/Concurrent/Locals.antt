-- ===== src/Pipelines/Query/Concurrent/Locals.antt =====
-- What the locals of a request of src/pipelines/query/mod.rs are at each point of its way.
use rust_enterprise_query_en.Common.{
  ℕ, zero, suc, List, [], ◌∷◌, Option, none, some, Result, ok, err, ◌≡◌, refl, inl, inr,
  Result-cases, if_keeps,
}
use rust_enterprise_query_en.Common.Text.{Text}
use rust_enterprise_query_en.Common.Floats.{Floats}
use rust_enterprise_query_en.Engines.Cache.{get_exact, get_similar}
use rust_enterprise_query_en.Engines.Cache.Responses.{
  Answers, get_exact-Kept, get_similar-Kept, insert-Responses,
}
use rust_enterprise_query_en.Engines.Embeddings.{get_embeddings}
use rust_enterprise_query_en.Engines.Vector.{execute_fallback_search}
use rust_enterprise_query_en.Pipelines.Types.{SemanticResponse, ParsedQuestion, verified}
use rust_enterprise_query_en.Pipelines.Firewall.{verify_and_parse_llm_generation}
use rust_enterprise_query_en.Pipelines.Firewall.Verification.{verify_iff}
use rust_enterprise_query_en.Pipelines.Ollama.{LlmError, unreachable, read_response}
use rust_enterprise_query_en.Pipelines.Query.{
  Services, Error, State, decode_cached, parse_question, first_embedding, retrieve,
}
use rust_enterprise_query_en.Pipelines.Query.Grounding.{
  IsServed, IsTrusted, IfOk, CacheSound, build_degraded_response-IsTrusted,
}
use rust_enterprise_query_en.Pipelines.Query.Concurrent.{
  Purpose, Pc, to_parse, to_generate, to_fall_back, begun, asking, sending, comparing, storing,
  finished, ask, prompt_of, store_answer, store_checked, ask_again, fall_back, after_check,
  after_embedding, after_retrieval, after_reply, after_response, after_lookup, advance,
}

module _ (fl : Floats) (services : Services fl) where
  open services use {client, store, JsonError}

  -- What the locals of a request may be.
  abbrev pub FinePurpose : Purpose fl services → Type 0
  FinePurpose to_parse = Unit
  FinePurpose (to_generate parsed v chunks) = IsServed fl services chunks
  FinePurpose (to_fall_back v payload chunks) =
      IsTrusted fl services (verified payload) × IsServed fl services chunks

  abbrev pub Fine : Pc fl services → Type 0
  Fine begun = Unit
  Fine (asking purpose attempt left last_err) = FinePurpose purpose
  Fine (sending purpose attempt left last_err) = FinePurpose purpose
  Fine (comparing parsed v) = Unit
  Fine (storing v payload bytes) =
      IsTrusted fl services (verified payload) × (services.to_vec (verified payload) ≡ ok bytes)
  Fine (finished r) = IfOk fl services r

  store_answer-Fine :
      (v : List fl.F) (payload : SemanticResponse)
      → IsTrusted fl services (verified payload)
      → Fine (store_answer fl services v payload)
  unfolding store_answer
  store_answer-Fine v payload trusted = elim (Result-cases (services.to_vec (verified payload))) [
    | inl (bytes, e) ↦ rw (e, store_answer) (trusted, e)
    | inr (f, e) ↦ rw (e, store_answer) trusted
  ]

  store_checked-Fine :
      (v : List fl.F) (raw : Text) (chunks : List (Text × Text))
      → IsServed fl services chunks
      → Fine (
          store_checked fl services v
            (verify_and_parse_llm_generation services.response_from_str raw chunks))
  unfolding store_checked
  store_checked-Fine v raw chunks served =
      elim (Result-cases (verify_and_parse_llm_generation services.response_from_str raw chunks)) [
        | inl (payload, e) ↦
            let (_, grounded) = (verify_iff services.response_from_str raw chunks payload).0 e in
            rw e (store_answer-Fine v payload (chunks, served, grounded))
        | inr (f, e) ↦ rw e tt
      ]

  ask_again-Fine :
      (v : List fl.F) (payload : SemanticResponse) (chunks : List (Text × Text))
      → IsTrusted fl services (verified payload)
      → IsServed fl services chunks
      → Fine (ask_again fl services v payload chunks)
  unfolding ask_again
  ask_again-Fine v payload [] trusted served = store_answer-Fine v payload trusted
  ask_again-Fine v payload (c ∷ cs) trusted served = (trusted, served)

  fall_back-Fine :
      (parsed : ParsedQuestion) (v : List fl.F) (payload : SemanticResponse)
      → IsTrusted fl services (verified payload)
      → Fine (fall_back fl services parsed v payload)
  unfolding fall_back
  fall_back-Fine parsed v payload trusted =
      elim (Result-cases (
        execute_fallback_search fl store services.chunk_json parsed.intent
          services.vector_db_uri)) [
            | inl (found, e) ↦
                rw (e, fall_back)
                  (ask_again-Fine v payload (services.iterate_chunks found) trusted
                    (inr (parsed.intent, found, e, refl)))
            | inr (f, e) ↦ rw (e, fall_back) tt
          ]

  after_check-Fine :
      (parsed : ParsedQuestion) (v : List fl.F) (raw : Text) (chunks : List (Text × Text))
      → IsServed fl services chunks
      → Fine (
          after_check fl services parsed v
            (verify_and_parse_llm_generation services.response_from_str raw chunks))
  unfolding after_check
  after_check-Fine parsed v raw chunks served =
      elim (Result-cases (verify_and_parse_llm_generation services.response_from_str raw chunks)) [
        | inr (f, e) ↦ rw e tt
        | inl (payload, e) ↦
            let (_, grounded) = (verify_iff services.response_from_str raw chunks payload).0 e in
            rw e (
              if_keeps Fine payload.answer_found (store_answer fl services v payload)
                (fall_back fl services parsed v payload)
                (store_answer-Fine v payload (chunks, served, grounded))
                (fall_back-Fine parsed v payload (chunks, served, grounded)))
      ]

  after_embedding-Fine :
      (parsed : ParsedQuestion) (vector : Result (Error fl services) (List fl.F))
      → Fine (after_embedding fl services parsed vector)
  unfolding after_embedding
  after_embedding-Fine parsed (err e) = tt
  after_embedding-Fine parsed (ok v) = tt

  after_retrieval-Fine :
      (query : Text) (parsed : ParsedQuestion) (v : List fl.F)
      → Fine (after_retrieval fl services parsed v (retrieve fl services query parsed v))
  unfolding after_retrieval
  after_retrieval-Fine query parsed v = elim (Result-cases (retrieve fl services query parsed v)) [
    | inl (chunks, e) ↦ rw e (inl (query, parsed, v, e))
    | inr (f, e) ↦ rw e tt
  ]

  after_reply-Fine :
      (query : Text) (purpose : Purpose fl services)
      (reply : Result (LlmError client.HttpError) Text)
      → FinePurpose purpose
      → Fine (after_reply fl services query purpose reply)
  unfolding after_reply
  after_reply-Fine query to_parse reply h =
      let parsed = parse_question fl services query reply in
      after_embedding-Fine parsed (
        first_embedding fl services
          (get_embeddings fl services.max_batch services.model (parsed.intent ∷ [])))
  after_reply-Fine query (to_generate parsed v chunks) (err e) served =
      build_degraded_response-IsTrusted fl services chunks (services.show_error e) served
  after_reply-Fine query (to_generate parsed v chunks) (ok raw) served =
      after_check-Fine parsed v raw chunks served
  after_reply-Fine query (to_fall_back v payload chunks) (err e) (trusted, served) =
      store_answer-Fine v payload trusted
  after_reply-Fine query (to_fall_back v payload chunks) (ok raw) (trusted, served) =
      store_checked-Fine v raw chunks served

  after_response-Fine :
      (query : Text) (purpose : Purpose fl services) (attempt left : ℕ)
      (response : Result client.HttpError client.Response)
      → FinePurpose purpose
      → Fine (after_response fl services query purpose attempt left response)
  unfolding after_response
  after_response-Fine query purpose attempt left (ok res) h =
      after_reply-Fine query purpose (read_response client res) h
  after_response-Fine query purpose attempt left (err e) h = h

  after_lookup-Fine :
      (hit : Option (List ℕ)) (pc : Pc fl services)
      → Answers fl (λ bytes. IfOk fl services (services.from_slice bytes)) hit
      → Fine pc
      → Fine (after_lookup fl services (decode_cached fl services hit) pc)
  unfolding after_lookup decode_cached
  after_lookup-Fine none pc a h = h
  after_lookup-Fine (some bytes) pc a h = elim (Result-cases (services.from_slice bytes)) [
    | inl (res, e) ↦ rw (e, decode_cached, after_lookup) (rw e at a)
    | inr (f, e) ↦ rw (e, decode_cached, after_lookup) h
  ]

  module _
      (decodes : (r : SemanticResponse) (bytes : List ℕ)
        → services.to_vec (verified r) ≡ ok bytes
        → services.from_slice bytes ≡ ok (verified r)) where
    -- A step keeps what the locals are, and that whatever decodes from the cache can be trusted.
    pub advance-Fine :
        (now : ℕ) (query : Text) (s : State fl services) (pc : Pc fl services)
        → CacheSound fl services s.cache
        → Fine pc
        → (let out = advance fl services now query s pc in
            CacheSound fl services out.0.cache × Fine out.1)
    unfolding advance
    advance-Fine now query s begun sound h =
        let (kept, answer) =
          get_exact-Kept fl (λ b. IfOk fl services (services.from_slice b)) now query s.cache
            sound in
        (
          kept,
          after_lookup-Fine (get_exact fl now query s.cache).1 (ask fl services to_parse) answer tt,
        )
    advance-Fine now query s (asking purpose attempt zero last_err) sound h =
        (sound, after_reply-Fine query purpose (err (unreachable last_err)) h)
    advance-Fine now query s (asking purpose attempt (suc left) last_err) sound h = (sound, h)
    advance-Fine now query s (sending purpose attempt left last_err) sound h =
        let reply = (client.post s.llm (prompt_of fl services query purpose)).1 in
        (sound, after_response-Fine query purpose attempt left reply h)
    advance-Fine now query s (comparing parsed v) sound h =
        let (kept, answer) =
          get_similar-Kept fl (λ b. IfOk fl services (services.from_slice b)) now v s.cache sound in
        (
          kept,
          after_lookup-Fine (get_similar fl now v s.cache).1
              (after_retrieval fl services parsed v (retrieve fl services query parsed v)) answer
              (after_retrieval-Fine query parsed v),
        )
    advance-Fine now query s (storing v payload bytes) sound (trusted, written) = (
      insert-Responses fl (λ b. IfOk fl services (services.from_slice b)) now query v bytes s.cache
          sound (rw (decodes payload bytes written) trusted),
      trusted,
    )
    advance-Fine now query s (finished r) sound h = (sound, h)
