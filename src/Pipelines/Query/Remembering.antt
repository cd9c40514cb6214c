-- ===== src/Pipelines/Query/Remembering.antt =====
-- What a run of src/pipelines/query/mod.rs that reaches the model leaves in the cache of
-- src/engines/cache.rs.
use mathlib.Core.List.{Memᴰ}
use rust_enterprise_query_en.Common.{
  ℕ, false, List, [], ◌∷◌, some, Result, ok, err, ◌≡◌, inl, inr, All, Result-cases, if_keeps,
}
use rust_enterprise_query_en.Common.Text.{Text}
use rust_enterprise_query_en.Common.Floats.{Floats}
use rust_enterprise_query_en.Engines.Cache.{SemanticCache, CacheEntry, get_exact}
use rust_enterprise_query_en.Engines.Cache.Exact.{Matches, get_exact-insert}
use rust_enterprise_query_en.Engines.Vector.{execute_fallback_search}
use rust_enterprise_query_en.Pipelines.Types.{SemanticResponse, ParsedQuestion, verified}
use rust_enterprise_query_en.Pipelines.Firewall.{FirewallError}
use rust_enterprise_query_en.Pipelines.Ollama.{LlmError}
use rust_enterprise_query_en.Pipelines.Query.{
  Error, Services, State, Outcome, build_degraded_response, finish, finish_checked,
  conclude_fallback, fallback_with, fallback, conclude, conclude_generation, generate,
}

module _ (fl : Floats) (services : Services fl) where
  open services use {client, store, JsonError}

  -- The lock of the cache is sound and no entry matches the question.
  abbrev pub Unasked : Text → SemanticCache fl → Type 0
  Unasked query c = (c.poisoned ≡ false) × All (λ e. ¬ Matches fl query e) c.entries

  -- An entry of the cache decodes to the answer.
  abbrev pub Holds : SemanticCache fl → SemanticResponse → Type 0
  Holds c r =
      (e : CacheEntry fl) × Memᴰ e c.entries × (services.from_slice e.response ≡ ok (verified r))

  -- An exact lookup gives bytes that decode to the answer.
  unfoldable pub Remembered : Text → ℕ → SemanticResponse → SemanticCache fl → Type 0
  Remembered query later r c =
      (bytes : List ℕ) × ((get_exact fl later query c).1 ≡ some bytes)
      × (services.from_slice bytes ≡ ok (verified r))

  -- What has answered is remembered.
  unfoldable pub Remembers : Text → ℕ → SemanticResponse → Outcome fl services → Type 0
  Remembers query later r (s, res) = res ≡ ok (verified r) → Remembered query later r s.cache

  -- What the writer writes for a verified answer is read back.
  module _
      (writes : (r : SemanticResponse)
        → (bytes : List ℕ) × (services.to_vec (verified r) ≡ ok bytes)
          × (services.from_slice bytes ≡ ok (verified r)))
      (now later : ℕ) (query : Text) (v : List fl.F) (r : SemanticResponse) where
    failed-Remembers :
        (s : State fl services) (e : Error fl services) → Remembers query later r (s, err e)
    unfolding Remembers
    failed-Remembers s e = λ h. cc

    finish-Remembers :
        (s : State fl services) (payload : SemanticResponse)
        → Unasked query s.cache
        → Remembers query later r (finish fl services now s query v payload)
    unfolding finish Remembers Remembered
    finish-Remembers s payload (sound, unasked) =
        let (bytes, written, back) = writes payload in
        rw (written, finish)
          (λ h. (bytes, get_exact-insert fl now later query v bytes s.cache sound unasked, cc))

    finish_checked-Remembers :
        (s : State fl services) (res : Result (FirewallError JsonError) SemanticResponse)
        → Unasked query s.cache
        → Remembers query later r (finish_checked fl services now s query v res)
    unfolding finish_checked
    finish_checked-Remembers s (err e) u = failed-Remembers s _
    finish_checked-Remembers s (ok payload) u = finish-Remembers s payload u

    conclude_fallback-Remembers :
        (s : State fl services) (payload : SemanticResponse) (chunks : List (Text × Text))
        (out : Result (LlmError client.HttpError) Text)
        → Unasked query s.cache
        → Remembers query later r (conclude_fallback fl services now s query v payload chunks out)
    unfolding conclude_fallback
    conclude_fallback-Remembers s payload chunks (err e) u = finish-Remembers s payload u
    conclude_fallback-Remembers s payload chunks (ok raw) u = finish_checked-Remembers s _ u

    fallback_with-Remembers :
        (s : State fl services) (payload : SemanticResponse) (chunks : List (Text × Text))
        → Unasked query s.cache
        → Remembers query later r (fallback_with fl services now s query v payload chunks)
    unfolding fallback_with
    fallback_with-Remembers s payload [] u = finish-Remembers s payload u
    fallback_with-Remembers s payload (c ∷ cs) u =
        conclude_fallback-Remembers _ payload (c ∷ cs) _ u

    fallback-Remembers :
        (s : State fl services) (parsed : ParsedQuestion) (payload : SemanticResponse)
        → Unasked query s.cache
        → Remembers query later r (fallback fl services now s query parsed v payload)
    unfolding fallback
    fallback-Remembers s parsed payload u =
        elim (Result-cases (
          execute_fallback_search fl store services.chunk_json parsed.intent
            services.vector_db_uri)) [
              | inl (found, e) ↦ rw (e, fallback) (fallback_with-Remembers s payload _ u)
              | inr (f, e) ↦ rw (e, fallback) (failed-Remembers s _)
            ]

    conclude-Remembers :
        (s : State fl services) (parsed : ParsedQuestion)
        (res : Result (FirewallError JsonError) SemanticResponse)
        → Unasked query s.cache
        → Remembers query later r (conclude fl services now s query parsed v res)
    unfolding conclude
    conclude-Remembers s parsed (err e) u = failed-Remembers s _
    conclude-Remembers s parsed (ok payload) u =
        if_keeps (Remembers query later r) payload.answer_found _ _ (finish-Remembers s payload u)
          (fallback-Remembers s parsed payload u)

    conclude_generation-Remembers :
        (s : State fl services) (parsed : ParsedQuestion) (chunks : List (Text × Text))
        (out : Result (LlmError client.HttpError) Text)
        → Unasked query s.cache
        → Remembers query later r (conclude_generation fl services now s query parsed v chunks out)
    unfolding conclude_generation Remembers build_degraded_response
    conclude_generation-Remembers s parsed chunks (err e) u = λ h. cc
    conclude_generation-Remembers s parsed chunks (ok raw) u = conclude-Remembers s parsed _ u

    pub generate-Remembers :
        (s : State fl services) (parsed : ParsedQuestion)
        (chunks : Result (Error fl services) (List (Text × Text)))
        → Unasked query s.cache
        → Remembers query later r (generate fl services now s query parsed v chunks)
    unfolding generate
    generate-Remembers s parsed (err e) u = failed-Remembers s e
    generate-Remembers s parsed (ok chunks) u = conclude_generation-Remembers _ parsed chunks _ u
