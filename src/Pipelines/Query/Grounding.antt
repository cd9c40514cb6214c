-- ===== src/Pipelines/Query/Grounding.antt =====
-- The answers of the semantic pipeline are grounded in what the store served, those of the cache
-- included.
use rust_enterprise_query_en.Common.{
  ℕ, List, [], ◌∷◌, Option, none, some, Result, ok, err, ◌≡◌, refl, ◌⊎◌, inl, inr, All,
  Result-cases, if_keeps,
}
use rust_enterprise_query_en.Common.Text.{Text}
use rust_enterprise_query_en.Common.Floats.{Floats}
use rust_enterprise_query_en.Engines.Cache.{SemanticCache, get_exact, get_similar}
use rust_enterprise_query_en.Engines.Cache.Responses.{
  Answers, get_exact-Kept, get_similar-Kept, insert-Responses,
}
use rust_enterprise_query_en.Engines.Embeddings.{get_embeddings}
use rust_enterprise_query_en.Engines.Vector.{execute_fallback_search}
use rust_enterprise_query_en.Pipelines.Types.{
  SemanticResponse, ParsedQuestion, SemanticQueryResult, verified, degraded,
}
use rust_enterprise_query_en.Pipelines.Firewall.{verify_and_parse_llm_generation}
use rust_enterprise_query_en.Pipelines.Firewall.Verification.{IsGrounded, verify_iff}
use rust_enterprise_query_en.Pipelines.Ollama.{LlmError, prompt_model}
use rust_enterprise_query_en.Pipelines.Prompts.{build_question_parser_prompt}
use rust_enterprise_query_en.Pipelines.Query.{
  first_embedding, parse_question, Services, Times, State, Outcome, build_degraded_response,
  decode_cached, retrieve, finish, finish_checked, conclude_fallback, fallback_with, fallback,
  conclude, conclude_generation, generate, answer_or, with_vector, with_question, ask_parser,
  run_semantic_pipeline,
}
use rust_enterprise_query_en.Pipelines.Query.Degraded.{
  IsDegraded, build_degraded_response-IsDegraded,
}

module _ (fl : Floats) (services : Services fl) where
  open services use {client, store, JsonError}

  -- The chunks are the candidates for a question, or what a fallback search has found.
  abbrev pub IsServed : List (Text × Text) → Type 0
  IsServed chunks =
      ((query : Text) × (parsed : ParsedQuestion) × (v : List fl.F) × (retrieve fl services query
            parsed v
          ≡ ok chunks))
      ⊎ ((intent : Text) × (found : List (Text × Text)) × (execute_fallback_search fl store
              services.chunk_json intent services.vector_db_uri
            ≡ ok found)
          × (chunks ≡ services.iterate_chunks found))

  -- A verified answer is grounded in served chunks, a degraded one lists served chunks.
  abbrev pub IsTrusted : SemanticQueryResult → Type 0
  IsTrusted (verified r) = (chunks : List (Text × Text)) × IsServed chunks × IsGrounded chunks r
  IsTrusted (degraded d) =
      (chunks : List (Text × Text)) × IsServed chunks × ((error : Text) × IsDegraded chunks error d)

  -- A response that is built from served chunks lists them.
  pub build_degraded_response-IsTrusted :
      (chunks : List (Text × Text)) (error : Text)
      → IsServed chunks
      → IsTrusted (build_degraded_response chunks error)
  build_degraded_response-IsTrusted chunks error served =
      let (d, e, lists) = build_degraded_response-IsDegraded chunks error in
      rw e (chunks, served, (error, lists))

  -- The result, if there is one, can be trusted.
  abbrev pub IfOk : {E : Type 0} → Result E SemanticQueryResult → Type 0
  IfOk (ok res) = IsTrusted res
  IfOk (err _) = Unit

  -- Whatever decodes from the cache can be trusted.
  abbrev pub CacheSound : SemanticCache fl → Type 0
  CacheSound c = All (λ e. IfOk (services.from_slice e.response)) c.entries

  abbrev pub Good : Outcome fl services → Type 0
  Good (s, r) = CacheSound s.cache × IfOk r

  cached-Good :
      (s : State fl services) (response : Option (List ℕ)) (next : Outcome fl services)
      → CacheSound s.cache
      → Answers fl (λ bytes. IfOk (services.from_slice bytes)) response
      → Good next
      → Good (answer_or fl services s (decode_cached fl services response) next)
  unfolding answer_or decode_cached
  cached-Good s none next sound a good = good
  cached-Good s (some bytes) next sound a good = elim (Result-cases (services.from_slice bytes)) [
    | inl (res, e) ↦ rw (e, decode_cached, answer_or) (sound, rw e at a)
    | inr (f, e) ↦ rw (e, decode_cached, answer_or) good
  ]

  -- What the writer has written is read back.
  module _
      (decodes : (r : SemanticResponse) (bytes : List ℕ)
        → services.to_vec (verified r) ≡ ok bytes
        → services.from_slice bytes ≡ ok (verified r))
      (now : ℕ) (query : Text) (v : List fl.F) where
    finish-Good :
        (s : State fl services) (payload : SemanticResponse)
        → CacheSound s.cache
        → IsTrusted (verified payload)
        → Good (finish fl services now s query v payload)
    unfolding finish
    finish-Good s payload sound trusted = elim (Result-cases (services.to_vec (verified payload))) [
      | inl (bytes, e) ↦
          rw (e, finish)
            (
              insert-Responses fl (λ b. IfOk (services.from_slice b)) now query v bytes s.cache
                  sound (rw (decodes payload bytes e) trusted),
              trusted,
            )
      | inr (f, e) ↦ rw (e, finish) (sound, trusted)
    ]

    finish_checked-Good :
        (s : State fl services) (raw : Text) (chunks : List (Text × Text))
        → CacheSound s.cache
        → IsServed chunks
        → Good (
            finish_checked fl services now s query v
              (verify_and_parse_llm_generation services.response_from_str raw chunks))
    unfolding finish_checked
    finish_checked-Good s raw chunks sound served =
        elim (Result-cases
          (verify_and_parse_llm_generation services.response_from_str raw chunks)) [
            | inl (payload, e) ↦
                let (_, grounded) =
                  (verify_iff services.response_from_str raw chunks payload).0 e in
                rw e (finish-Good s payload sound (chunks, served, grounded))
            | inr (f, e) ↦ rw e (sound, tt)
          ]

    conclude_fallback-Good :
        (s : State fl services) (payload : SemanticResponse) (chunks : List (Text × Text))
        (out : Result (LlmError client.HttpError) Text)
        → CacheSound s.cache
        → IsTrusted (verified payload)
        → IsServed chunks
        → Good (conclude_fallback fl services now s query v payload chunks out)
    unfolding conclude_fallback
    conclude_fallback-Good s payload chunks (ok raw) sound trusted served =
        finish_checked-Good s raw chunks sound served
    conclude_fallback-Good s payload chunks (err e) sound trusted served =
        finish-Good s payload sound trusted

    fallback_with-Good :
        (s : State fl services) (payload : SemanticResponse) (chunks : List (Text × Text))
        → CacheSound s.cache
        → IsTrusted (verified payload)
        → IsServed chunks
        → Good (fallback_with fl services now s query v payload chunks)
    unfolding fallback_with
    fallback_with-Good s payload [] sound trusted served = finish-Good s payload sound trusted
    fallback_with-Good s payload (c ∷ cs) sound trusted served =
        conclude_fallback-Good _ payload (c ∷ cs) _ sound trusted served

    fallback-Good :
        (s : State fl services) (parsed : ParsedQuestion) (payload : SemanticResponse)
        → CacheSound s.cache
        → IsTrusted (verified payload)
        → Good (fallback fl services now s query parsed v payload)
    unfolding fallback
    fallback-Good s parsed payload sound trusted =
        elim (Result-cases (
          execute_fallback_search fl store services.chunk_json parsed.intent
            services.vector_db_uri)) [
              | inl (found, e) ↦
                  rw (e, fallback)
                    (fallback_with-Good s payload (services.iterate_chunks found) sound trusted
                      (inr (parsed.intent, found, e, refl)))
              | inr (f, e) ↦ rw (e, fallback) (sound, tt)
            ]

    conclude_generation-Good :
        (s : State fl services) (parsed : ParsedQuestion) (chunks : List (Text × Text))
        (out : Result (LlmError client.HttpError) Text)
        → CacheSound s.cache
        → IsServed chunks
        → Good (conclude_generation fl services now s query parsed v chunks out)
    unfolding conclude_generation conclude
    conclude_generation-Good s parsed chunks (err e) sound served =
        (sound, build_degraded_response-IsTrusted chunks (services.show_error e) served)
    conclude_generation-Good s parsed chunks (ok raw) sound served =
        elim (Result-cases
          (verify_and_parse_llm_generation services.response_from_str raw chunks)) [
            | inr (f, e) ↦ rw e (sound, tt)
            | inl (payload, e) ↦
                let (_, grounded) =
                  (verify_iff services.response_from_str raw chunks payload).0 e in
                rw e (
                  if_keeps Good payload.answer_found (finish fl services now s query v payload)
                    (fallback fl services now s query parsed v payload)
                    (finish-Good s payload sound (chunks, served, grounded))
                    (fallback-Good s parsed payload sound (chunks, served, grounded)))
          ]

    generate-Good :
        (s : State fl services) (parsed : ParsedQuestion)
        → CacheSound s.cache
        → Good (generate fl services now s query parsed v (retrieve fl services query parsed v))
    unfolding generate
    generate-Good s parsed sound = elim (Result-cases (retrieve fl services query parsed v)) [
      | inl (chunks, e) ↦
          rw e (conclude_generation-Good _ parsed chunks _ sound (inl (query, parsed, v, e)))
      | inr (f, e) ↦ rw e (sound, tt)
    ]

  with_vector-Good :
      ((r : SemanticResponse) (bytes : List ℕ)
        → services.to_vec (verified r) ≡ ok bytes
        → services.from_slice bytes ≡ ok (verified r))
      → (times : Times) (query : Text) (v : List fl.F) (s : State fl services)
        (parsed : ParsedQuestion)
      → CacheSound s.cache
      → Good (with_vector fl services times s query parsed (ok v))
  unfolding with_vector
  with_vector-Good decodes times query v s parsed sound =
      let (kept, answer) =
        get_similar-Kept fl (λ b. IfOk (services.from_slice b)) times.at_similar v s.cache sound in
      let hit = get_similar fl times.at_similar v s.cache in
      let s' : State fl services = record s { cache = hit.0 } in
      cached-Good s' hit.1
        (generate fl services times.at_insert s' query parsed v
          (retrieve fl services query parsed v))
        kept answer (generate-Good decodes times.at_insert query v s' parsed kept)

  ask_parser-Good :
      ((r : SemanticResponse) (bytes : List ℕ)
        → services.to_vec (verified r) ≡ ok bytes
        → services.from_slice bytes ≡ ok (verified r))
      → (times : Times) (query : Text) (s : State fl services) → CacheSound s.cache
      → Good (ask_parser fl services times s query)
  unfolding ask_parser with_question with_vector
  ask_parser-Good decodes times query s sound =
      let out = prompt_model client (build_question_parser_prompt query) s.llm in
      let parsed = parse_question fl services query out.1 in
      let s' : State fl services = record s { llm = out.0 } in
      elim (Result-cases (
        first_embedding fl services
          (get_embeddings fl services.max_batch services.model (parsed.intent ∷ [])))) [
            | inl (v, e) ↦ rw e (with_vector-Good decodes times query v s' parsed sound)
            | inr (f, e) ↦ rw (e, with_vector) (sound, tt)
          ]

  -- If what the writer writes for a verified answer is read back as that answer, and whatever decodes
  -- from the cache can be trusted, then this holds of the cache after a run as well, and the run's
  -- answer, if it gives one, can be trusted, be it fresh, degraded or from the cache: a verified
  -- answer is grounded in chunks that the store served, a degraded one lists chunks that it served.
  pub run_semantic_pipeline-Good :
      ((r : SemanticResponse) (bytes : List ℕ)
        → services.to_vec (verified r) ≡ ok bytes
        → services.from_slice bytes ≡ ok (verified r))
      → (times : Times) (s : State fl services) (query : Text) → CacheSound s.cache
      → Good (run_semantic_pipeline fl services times s query)
  unfolding run_semantic_pipeline
  run_semantic_pipeline-Good decodes times s query sound =
      let (kept, answer) =
        get_exact-Kept fl (λ b. IfOk (services.from_slice b)) times.at_exact query s.cache sound in
      let hit = get_exact fl times.at_exact query s.cache in
      let s' : State fl services = record s { cache = hit.0 } in
      cached-Good s' hit.1 (ask_parser fl services times s' query) kept answer
        (ask_parser-Good decodes times query s' kept)
