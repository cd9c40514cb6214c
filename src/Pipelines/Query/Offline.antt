-- ===== src/Pipelines/Query/Offline.antt =====
-- src/pipelines/query/mod.rs while the language model is unreachable.
use rust_enterprise_query_en.Common.{List, [], ◌∷◌, none, some, ok, err, ◌≡◌, refl, ℕ, inl, inr, ap}
use rust_enterprise_query_en.Common.Text.{Text}
use rust_enterprise_query_en.Common.Floats.{Floats}
use rust_enterprise_query_en.Engines.Cache.{SemanticCache, get_exact, get_similar}
use rust_enterprise_query_en.Engines.Embeddings.{get_embeddings}
use rust_enterprise_query_en.Pipelines.Types.{ParsedQuestion, DegradedResponse, degraded}
use rust_enterprise_query_en.Pipelines.Ollama.{HttpClient, unreachable, prompt_model}
use rust_enterprise_query_en.Pipelines.Ollama.Laws.{prompt_model-Attempted}
use rust_enterprise_query_en.Pipelines.Prompts.{build_question_parser_prompt, build_semantic_prompt}
use rust_enterprise_query_en.Pipelines.Query.{
  first_embedding, parse_question, raw_question, Services, Times, State, Outcome, decode_cached,
  retrieve, conclude_generation, generate, answer_or, with_vector, with_question, ask_parser,
  run_semantic_pipeline,
}
use rust_enterprise_query_en.Pipelines.Query.Degraded.{
  IsDegraded, build_degraded_response-IsDegraded,
}

-- No request gets a response.
abbrev pub IsOffline : HttpClient → Type 0
IsOffline client =
    (w : client.World) (prompt : Text) → (e : client.HttpError) × ((client.post w prompt).1 ≡ err e)

unanswered :
    (client : HttpClient)
    → IsOffline client
    → (w : client.World) (prompt : Text) (res : client.Response)
    → ¬ ((client.post w prompt).1 ≡ ok res)
unanswered client offline w prompt res =
    λ h. let lost : (client.post w prompt).1 ≡ err (offline w prompt).0 = (offline w prompt).1 in cc

-- What a call of the model returns then.
prompt_model-unreachable :
    (client : HttpClient)
    → IsOffline client
    → (prompt : Text) (w : client.World)
    → (e : client.HttpError) × ((prompt_model client prompt w).1 ≡ err (unreachable (some e)))
prompt_model-unreachable client offline prompt w = elim (prompt_model-Attempted client prompt w) [
  | inl (res, answered, _) ↦ absurd (unanswered client offline w prompt res answered)
  | inr (inl (_, res, _, answered, _)) ↦ absurd (unanswered client offline _ prompt res answered)
  | inr (inr (_, e, _, _, out)) ↦ (e, ap (λ p. p.1) out)
]

module _ (fl : Floats) (services : Services fl) where
  open services use {client}

  -- The outcome is a degraded response that lists the chunks, and the cache is the one given.
  abbrev pub Degrades : SemanticCache fl → List (Text × Text) → Outcome fl services → Type 0
  Degrades c chunks (s, res) =
      (d : DegradedResponse) × (e : client.HttpError) × (res ≡ ok (degraded d))
      × IsDegraded chunks (services.show_error (unreachable (some e))) d
      × (s.cache ≡ c)

module _ (fl : Floats) (services : Services fl) (offline : IsOffline services.client) where
  open services use {client}

  generate-Degrades :
      (now : ℕ) (s : State fl services) (query : Text) (parsed : ParsedQuestion) (v : List fl.F)
      (chunks : List (Text × Text))
      → Degrades fl services s.cache chunks (generate fl services now s query parsed v (ok chunks))
  unfolding generate conclude_generation
  generate-Degrades now s query parsed v chunks =
      let (e, failed) =
        prompt_model-unreachable client offline (build_semantic_prompt query chunks) s.llm in
      let (d, built, lists) =
        build_degraded_response-IsDegraded chunks (services.show_error (unreachable (some e))) in
      rw failed (d, e, ap ok built, lists, refl)

  -- If no request to the language model gets a response, neither tier of the cache has an answer,
  -- and the question as it stands can be embedded and the search for it succeeds, then the pipeline
  -- still returns: a response that is flagged as degraded, names an error of the client in its
  -- message, and lists exactly the ids and contents that this search has found, in their order. The
  -- cache is left as it was.
  pub run_semantic_pipeline-Degrades :
      (times : Times) (s : State fl services) (query : Text) (v : List fl.F)
      (chunks : List (Text × Text))
      → get_exact fl times.at_exact query s.cache ≡ (s.cache, none)
      → first_embedding fl services
          (get_embeddings fl services.max_batch services.model (query ∷ []))
        ≡ ok v
      → get_similar fl times.at_similar v s.cache ≡ (s.cache, none)
      → retrieve fl services query (raw_question query) v ≡ ok chunks
      → Degrades fl services s.cache chunks (run_semantic_pipeline fl services times s query)
  unfolding run_semantic_pipeline ask_parser with_question with_vector parse_question answer_or
      decode_cached raw_question
  run_semantic_pipeline-Degrades times s query v chunks exact embedded similar found =
      let (_, failed) =
        prompt_model-unreachable client offline (build_question_parser_prompt query) s.llm in
      rw (exact, failed, embedded, similar, found)
        (generate-Degrades times.at_insert _ query (raw_question query) v chunks)
