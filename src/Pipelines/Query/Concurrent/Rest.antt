-- ===== src/Pipelines/Query/Concurrent/Rest.antt =====
-- What is left to do for a request of src/pipelines/query/mod.rs, in terms of the sequential pipeline.
use rust_enterprise_query_en.Common.{
  ℕ, suc, Bool, true, false, List, [], ◌∷◌, Option, none, some, Result, ok, err, ◌≡◌, refl, inl,
  inr, Result-cases, if◌then◌else◌,
}
use rust_enterprise_query_en.Common.Text.{Text}
use rust_enterprise_query_en.Common.Floats.{Floats}
use rust_enterprise_query_en.Engines.Cache.{insert}
use rust_enterprise_query_en.Engines.Embeddings.{get_embeddings}
use rust_enterprise_query_en.Engines.Vector.{execute_fallback_search}
use rust_enterprise_query_en.Pipelines.Types.{
  SemanticResponse, ParsedQuestion, SemanticQueryResult, verified,
}
use rust_enterprise_query_en.Pipelines.Firewall.{FirewallError, verify_and_parse_llm_generation}
use rust_enterprise_query_en.Pipelines.Ollama.{LlmError, prompt_model, attempts, read_response}
use rust_enterprise_query_en.Pipelines.Query.{
  Services, Times, Error, State, Outcome, parse_question, first_embedding, finish, finish_checked,
  conclude_fallback, fallback_with, fallback, conclude, conclude_generation, generate, answer_or,
  with_vector, with_question, run_semantic_pipeline,
}
use rust_enterprise_query_en.Pipelines.Query.Concurrent.{
  Purpose, Pc, to_parse, to_generate, to_fall_back, begun, asking, sending, comparing, storing,
  finished, prompt_of, store_answer, store_checked, ask_again, fall_back, after_check,
  after_embedding, after_retrieval, after_reply, after_response, after_lookup,
}

module _ (fl : Floats) (services : Services fl) where
  open services use {client, store, JsonError}

  module _ (times : Times) (query : Text) where
    -- What the sequential pipeline does with a reply of the model.
    abbrev pub on_reply :
        State fl services
        → Purpose fl services
        → Result (LlmError client.HttpError) Text
        → Outcome fl services
    on_reply s to_parse reply =
        with_question fl services times s query (parse_question fl services query reply)
    on_reply s (to_generate parsed v chunks) reply =
        conclude_generation fl services times.at_insert s query parsed v chunks reply
    on_reply s (to_fall_back v payload chunks) reply =
        conclude_fallback fl services times.at_insert s query v payload chunks reply

    -- What the sequential pipeline does with the response of a round of the loop.
    unfoldable pub on_response :
        State fl services
        → Purpose fl services
        → (attempt left : ℕ) → Result client.HttpError client.Response
        → Outcome fl services
    on_response s purpose attempt left (ok res) = on_reply s purpose (read_response client res)
    on_response s purpose attempt left (err e) =
        let out =
          attempts client (suc attempt) left (some e) (prompt_of fl services query purpose) s.llm in
        on_reply (record s { llm = out.0 }) purpose out.1

    -- What is left to do for the sequential pipeline.
    unfoldable pub rest : State fl services → Pc fl services → Outcome fl services
    rest s begun = run_semantic_pipeline fl services times s query
    rest s (asking purpose attempt left last_err) =
        let out =
          attempts client attempt left last_err (prompt_of fl services query purpose) s.llm in
        on_reply (record s { llm = out.0 }) purpose out.1
    rest s (sending purpose attempt left last_err) =
        let out = client.post s.llm (prompt_of fl services query purpose) in
        on_response (record s { llm = out.0 }) purpose attempt left out.1
    rest s (comparing parsed v) = with_vector fl services times s query parsed (ok v)
    rest s (storing v payload bytes) = (
      record s { cache = insert fl times.at_insert query v bytes s.cache },
      ok (verified payload),
    )
    rest s (finished r) = (s, r)

    rest-store_answer :
        (s : State fl services) (v : List fl.F) (payload : SemanticResponse)
        → rest s (store_answer fl services v payload)
          ≡ finish fl services times.at_insert s query v payload
    unfolding rest store_answer finish
    rest-store_answer s v payload = elim (Result-cases (services.to_vec (verified payload))) [
      | inl (_, e) ↦ rw (e, rest, finish) refl
      | inr (_, e) ↦ rw (e, rest, finish) refl
    ]

    rest-ask_again :
        (s : State fl services) (v : List fl.F) (payload : SemanticResponse)
        (chunks : List (Text × Text))
        → rest s (ask_again fl services v payload chunks)
          ≡ fallback_with fl services times.at_insert s query v payload chunks
    unfolding rest ask_again fallback_with prompt_of
    rest-ask_again s v payload [] = rest-store_answer s v payload
    rest-ask_again s v payload (c ∷ cs) = unfold prompt_model in refl

    rest-fall_back :
        (s : State fl services) (parsed : ParsedQuestion) (v : List fl.F)
        (payload : SemanticResponse)
        → rest s (fall_back fl services parsed v payload)
          ≡ fallback fl services times.at_insert s query parsed v payload
    unfolding rest fall_back fallback
    rest-fall_back s parsed v payload =
        elim (Result-cases (
          execute_fallback_search fl store services.chunk_json parsed.intent
            services.vector_db_uri)) [
              | inl (chunks, e) ↦
                  rw (e, rest, fallback)
                    (rest-ask_again s v payload (services.iterate_chunks chunks))
              | inr (_, e) ↦ rw (e, rest, fallback) refl
            ]

    rest-either :
        (s : State fl services) (b : Bool) (x y : Pc fl services)
        → rest s (if b then x else y) ≡ (if b then rest s x else rest s y)
    rest-either s true x y = refl
    rest-either s false x y = refl

    rest-after_check :
        (s : State fl services) (parsed : ParsedQuestion) (v : List fl.F)
        (checked : Result (FirewallError JsonError) SemanticResponse)
        → rest s (after_check fl services parsed v checked)
          ≡ conclude fl services times.at_insert s query parsed v checked
    unfolding after_check conclude rest
    rest-after_check s parsed v (err e) = refl
    rest-after_check s parsed v (ok payload) =
        rw
          (
            rest-either s payload.answer_found (store_answer fl services v payload)
                (fall_back fl services parsed v payload),
            rest-store_answer s v payload,
            rest-fall_back s parsed v payload,
          )
          refl

    rest-store_checked :
        (s : State fl services) (v : List fl.F)
        (checked : Result (FirewallError JsonError) SemanticResponse)
        → rest s (store_checked fl services v checked)
          ≡ finish_checked fl services times.at_insert s query v checked
    unfolding store_checked finish_checked rest
    rest-store_checked s v (err e) = refl
    rest-store_checked s v (ok payload) = rest-store_answer s v payload

    rest-after_embedding :
        (s : State fl services) (parsed : ParsedQuestion)
        (vector : Result (Error fl services) (List fl.F))
        → rest s (after_embedding fl services parsed vector)
          ≡ with_vector fl services times s query parsed vector
    unfolding after_embedding with_vector rest
    rest-after_embedding s parsed (err e) = refl
    rest-after_embedding s parsed (ok v) = refl

    pub rest-after_retrieval :
        (s : State fl services) (parsed : ParsedQuestion) (v : List fl.F)
        (chunks : Result (Error fl services) (List (Text × Text)))
        → rest s (after_retrieval fl services parsed v chunks)
          ≡ generate fl services times.at_insert s query parsed v chunks
    unfolding after_retrieval generate prompt_of prompt_model rest
    rest-after_retrieval s parsed v (err e) = refl
    rest-after_retrieval s parsed v (ok chunks) = refl

    pub rest-after_reply :
        (s : State fl services) (purpose : Purpose fl services)
        (reply : Result (LlmError client.HttpError) Text)
        → rest s (after_reply fl services query purpose reply) ≡ on_reply s purpose reply
    unfolding after_reply with_question conclude_generation conclude_fallback rest
    rest-after_reply s to_parse reply =
        let parsed = parse_question fl services query reply in
        rest-after_embedding s parsed (
          first_embedding fl services
            (get_embeddings fl services.max_batch services.model (parsed.intent ∷ [])))
    rest-after_reply s (to_generate parsed v chunks) (err e) = refl
    rest-after_reply s (to_generate parsed v chunks) (ok raw) =
        rest-after_check s parsed v
          (verify_and_parse_llm_generation services.response_from_str raw chunks)
    rest-after_reply s (to_fall_back v payload chunks) (err e) = rest-store_answer s v payload
    rest-after_reply s (to_fall_back v payload chunks) (ok raw) =
        rest-store_checked s v
          (verify_and_parse_llm_generation services.response_from_str raw chunks)

    pub rest-after_lookup :
        (s : State fl services) (hit : Option SemanticQueryResult) (pc : Pc fl services)
        → rest s (after_lookup fl services hit pc) ≡ answer_or fl services s hit (rest s pc)
    unfolding rest after_lookup answer_or
    rest-after_lookup s none pc = refl
    rest-after_lookup s (some res) pc = refl

    pub rest-after_response :
        (s : State fl services) (purpose : Purpose fl services) (attempt left : ℕ)
        (response : Result client.HttpError client.Response)
        → rest s (after_response fl services query purpose attempt left response)
          ≡ on_response s purpose attempt left response
    unfolding rest after_response on_response
    rest-after_response s purpose attempt left (ok res) =
        rest-after_reply s purpose (read_response client res)
    rest-after_response s purpose attempt left (err e) = refl

    -- A round of the loop, with its pause done.
    pub sending-on_reply :
        (s : State fl services) (purpose : Purpose fl services) (attempt left : ℕ)
        (w : client.World) (response : Result client.HttpError client.Response)
        → (let out : client.World × Result (LlmError client.HttpError) Text = elim response [
          | ok res ↦ (w, read_response client res)
          | err e ↦
              attempts client (suc attempt) left (some e) (prompt_of fl services query purpose) w
        ] in
            on_response (record s { llm = w }) purpose attempt left response
            ≡ on_reply (record s { llm = out.0 }) purpose out.1)
    unfolding on_response
    sending-on_reply s purpose attempt left w (ok res) = refl
    sending-on_reply s purpose attempt left w (err e) = refl
