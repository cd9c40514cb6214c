-- ===== src/Pipelines/Query/Repeat.antt =====
-- A question that is asked again: what a run of src/pipelines/query/mod.rs leaves in the cache of
-- src/engines/cache.rs for the next one.
use mathlib.Core.List.{Memᴰ}
use mathlib.Core.Path.{subst}
use rust_enterprise_query_en.Common.{
  All-split, All-append, ℕ, List, ◌∷◌, ◌++◌, some, Result, ok, err, ◌≡◌, refl, ◌⊎◌, inl, inr, All,
  Result-cases,
}
use rust_enterprise_query_en.Common.Members.{in_middle}
use rust_enterprise_query_en.Common.Text.{Text}
use rust_enterprise_query_en.Common.Floats.{Floats}
use rust_enterprise_query_en.Engines.Cache.{SemanticCache, CacheEntry, touch}
use rust_enterprise_query_en.Engines.Cache.Exact.{Matches, get_exact-FirstMatch}
use rust_enterprise_query_en.Engines.Cache.Similar.{get_similar-Answer}
use rust_enterprise_query_en.Pipelines.Types.{SemanticResponse, ParsedQuestion, verified}
use rust_enterprise_query_en.Pipelines.Query.{
  Error, Services, Times, State, Outcome, decode_cached, retrieve, generate, answer_or, with_vector,
  with_question, ask_parser, run_semantic_pipeline,
}
use rust_enterprise_query_en.Pipelines.Query.Remembering.{
  Unasked, Holds, Remembered, Remembers, generate-Remembers,
}

module _ (fl : Floats) (services : Services fl) where
  open services use {client, store, JsonError}

  -- What has answered stands in the cache given, or is remembered.
  Repeats : Text → ℕ → SemanticResponse → SemanticCache fl → Outcome fl services → Type 0
  Repeats query later r c (s, res) =
      res ≡ ok (verified r) → Holds fl services c r ⊎ Remembered fl services query later r s.cache

  touched-Unasked :
      (now : ℕ) (query : Text) (before : List (CacheEntry fl)) (e : CacheEntry fl)
      (after : List (CacheEntry fl)) (c : SemanticCache fl)
      → c.entries ≡ before ++ (e ∷ after)
      → Unasked fl services query c
      → Unasked fl services query (record c { entries = before ++ (touch fl now e ∷ after) })
  touched-Unasked now query before e after c whole (sound, unasked) =
      let (l, (here, r)) =
        All-split (λ x. ¬ Matches fl query x) before (e ∷ after)
          (subst (All (λ x. ¬ Matches fl query x)) whole unasked) in
      (sound, All-append (λ x. ¬ Matches fl query x) before (touch fl now e ∷ after) l (here, r))

  mismatched :
      (before : List (CacheEntry fl)) (e : CacheEntry fl) (after es : List (CacheEntry fl))
      (query : Text)
      → es ≡ before ++ (e ∷ after)
      → All (λ x. ¬ Matches fl query x) es
      → ¬ Matches fl query e
  mismatched before e after es query whole unasked =
      let (_, (here, _)) =
        All-split (λ x. ¬ Matches fl query x) before (e ∷ after)
          (subst (All (λ x. ¬ Matches fl query x)) whole unasked) in
      here

  module _
      (writes : (r : SemanticResponse)
        → (bytes : List ℕ) × (services.to_vec (verified r) ≡ ok bytes)
          × (services.from_slice bytes ≡ ok (verified r)))
      (times : Times) (later : ℕ) (query : Text) (r : SemanticResponse) where
    generate-Repeats :
        (s : State fl services) (parsed : ParsedQuestion) (v : List fl.F) (c : SemanticCache fl)
        → Unasked fl services query s.cache
        → Repeats query later r c (
            generate fl services times.at_insert s query parsed v
              (retrieve fl services query parsed v))
    unfolding Repeats Remembers
    generate-Repeats s parsed v c u = λ h.
        inr (generate-Remembers fl services writes times.at_insert later query v r s parsed _ u h)

    similar-Repeats :
        (s : State fl services) (parsed : ParsedQuestion) (v : List fl.F) (response : List ℕ)
        (c : SemanticCache fl)
        → ((e : CacheEntry fl) × Memᴰ e c.entries × (e.response ≡ response))
        → Unasked fl services query s.cache
        → Repeats query later r c (
            answer_or fl services s (decode_cached fl services (some response)) (
              generate fl services times.at_insert s query parsed v
                (retrieve fl services query parsed v)))
    unfolding answer_or decode_cached
    similar-Repeats s parsed v response c (e, there, same) u =
        elim (Result-cases (services.from_slice response)) [
          | inl (res, back) ↦
              rw (back, decode_cached, answer_or)
                (unfold Repeats in (λ h. inl (e, there, rw same (cc))))
          | inr (f, back) ↦ rw (back, decode_cached, answer_or) (generate-Repeats s parsed v c u)
        ]

    with_vector-Repeats :
        (s : State fl services) (parsed : ParsedQuestion)
        (res : Result (Error fl services) (List fl.F))
        → Unasked fl services query s.cache
        → Repeats query later r s.cache (with_vector fl services times s query parsed res)
    unfolding with_vector
    with_vector-Repeats s parsed (err e) u = unfold Repeats in (λ h. cc)
    with_vector-Repeats s parsed (ok v) u =
        elim (get_similar-Answer fl times.at_similar v s.cache u.0) [
          | inl (k, _, _, same) ↦ rw same (
              similar-Repeats _ parsed v k.entry.response s.cache
                (k.entry, rw k.whole (in_middle k.before k.entry k.after), refl)
                (touched-Unasked times.at_similar query k.before k.entry k.after s.cache k.whole u))
          | inr (same, _) ↦
              rw same (unfold answer_or decode_cached in (generate-Repeats s parsed v s.cache u))
        ]

    first-Repeats :
        (s : State fl services)
        → Unasked fl services query s.cache
        → Repeats query later r s.cache (run_semantic_pipeline fl services times s query)
    unfolding run_semantic_pipeline ask_parser with_question
    first-Repeats s u = elim (get_exact-FirstMatch fl times.at_exact query s.cache u.0) [
      | inl (_, same) ↦ rw same (unfold answer_or decode_cached in (with_vector-Repeats _ _ _ u))
      | inr (m, same) ↦
          absurd (mismatched m.before m.entry m.after s.cache.entries query m.whole u.1 m.matched)
    ]

  answer_again :
      (later : Times) (query : Text) (r : SemanticResponse) (s : State fl services)
      → Remembered fl services query later.at_exact r s.cache
      → ((run_semantic_pipeline fl services later s query).1 ≡ ok (verified r))
        × ((run_semantic_pipeline fl services later s query).0.llm ≡ s.llm)
  unfolding run_semantic_pipeline Remembered decode_cached answer_or
  answer_again later query r s (bytes, found, back) = (
    rw (found, back, decode_cached, answer_or) refl,
    rw (found, back, decode_cached, answer_or) refl,
  )

  -- If what is written for a verified answer is read back as that answer, no entry of the cache
  -- matches the question, the lock is sound and a run gives a verified answer, then either an
  -- entry that stood in the cache before the run decodes to this answer, or the same question,
  -- asked again at any time directly after the run, gives the same answer and leaves the
  -- client of the model in the state in which it was.
  pub run_semantic_pipeline_repeats :
      ((r : SemanticResponse)
        → (bytes : List ℕ) × (services.to_vec (verified r) ≡ ok bytes)
          × (services.from_slice bytes ≡ ok (verified r)))
      → (times later : Times) (query : Text) (r : SemanticResponse) (s : State fl services)
      → Unasked fl services query s.cache
      → (run_semantic_pipeline fl services times s query).1 ≡ ok (verified r)
      → Holds fl services s.cache r
        ⊎ (((run_semantic_pipeline fl services later
                (run_semantic_pipeline fl services times s query).0
                query).1
              ≡ ok (verified r))
            × ((run_semantic_pipeline fl services later
                  (run_semantic_pipeline fl services times s query).0
                  query).0.llm
                ≡ (run_semantic_pipeline fl services times s query).0.llm))
  run_semantic_pipeline_repeats writes times later query r s u answered =
      let outcome : Holds fl services s.cache r
          ⊎ Remembered fl services query later.at_exact r
              (run_semantic_pipeline fl services times s query).0.cache =
        unfold Repeats in (first-Repeats writes times later.at_exact query r s u answered) in
      elim outcome [
        | inl held ↦ inl held
        | inr remembered ↦ inr (answer_again later query r _ remembered)
      ]
