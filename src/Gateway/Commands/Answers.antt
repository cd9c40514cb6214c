-- ===== src/Gateway/Commands/Answers.antt =====
-- What the command `ask-semantic` of src/gateway/mod.rs prints.
use rust_enterprise_query_en.Common.{
  ℕ, List, ◌++◌, [], ◌∷◌, Option, Result, ok, err, map_err, ◌≡◌, refl, ◌⊎◌, inl, inr, Result-cases,
}
use rust_enterprise_query_en.Common.Text.{Text}
use rust_enterprise_query_en.Engines.Cache.{SemanticCache, new}
use rust_enterprise_query_en.Engines.Embeddings.{Model}
use rust_enterprise_query_en.Pipelines.Types.{SemanticResponse, SemanticQueryResult, verified}
use rust_enterprise_query_en.Pipelines.Query.{Services, run_semantic_pipeline}
use rust_enterprise_query_en.Pipelines.Query as Query
use rust_enterprise_query_en.Pipelines.Query.Grounding.{
  IsTrusted, IfOk, CacheSound, run_semantic_pipeline-Good,
}
use rust_enterprise_query_en.Pipelines.Query.Setup.{semantic_cache, with_model}
use rust_enterprise_query_en.Gateway.Cli.{CliError}
use rust_enterprise_query_en.Gateway.Commands.{
  semantic_failed, Process, World, print_line, print_result, for_each, load_model, resolve,
  semantic_query,
}
use rust_enterprise_query_en.Gateway.Commands.Run.{run_ask_semantic}
use rust_enterprise_query_en.Gateway.Commands.Loops.{for_each-keeps}

module _ (p : Process)
    (decodes : (r : SemanticResponse) (bytes : List ℕ)
      → p.services.to_vec (verified r) ≡ ok bytes
      → p.services.from_slice bytes ≡ ok (verified r)) where
  open p use {fl, services}

  -- Lines that each write a result which can be trusted, behind what was there.
  pub data Printed (model : Model fl services.ModelError) (before : Text) : Text → Type 0 where
    nothing : Printed model before before
    line :
        {out : Text} (res : SemanticQueryResult) (text : Text)
        → Printed model before out
        → IsTrusted fl (with_model fl services model) res
        → p.result_to_string res ≡ ok text
        → Printed model before (out ++ (text ++ 10 ∷ []))

  module _ (model : Model fl services.ModelError) (before : Text) where
    abbrev Sound : World p × SemanticCache fl → Type 0
    Sound (w, cache) =
        CacheSound fl (with_model fl services model) cache × Printed model before w.out

    print_line-Printed :
        (res : SemanticQueryResult) (r : Result services.JsonError Text) (w : World p)
        → p.result_to_string res ≡ r
        → IsTrusted fl (with_model fl services model) res
        → Printed model before w.out
        → Printed model before (print_line p r w).0.out
    unfolding print_line
    print_line-Printed res (ok text) w written trusted printed =
        line res text printed trusted written
    print_line-Printed res (err e) w written trusted printed = printed

    print_result-Printed :
        (r : Result (Query.Error fl services) SemanticQueryResult) (w : World p)
        → IfOk fl (with_model fl services model) r
        → Printed model before w.out
        → Printed model before (print_result p (map_err semantic_failed r) w).0.out
    unfolding print_result
    print_result-Printed (ok res) w trusted printed =
        print_line-Printed res _ w refl trusted printed
    print_result-Printed (err e) w trusted printed = printed

    semantic_query-Sound :
        (s : World p × SemanticCache fl) (q : Text) → Sound s → Sound (semantic_query p model s q).0
    unfolding semantic_query
    semantic_query-Sound (w, cache) q (sound, printed) =
        let (kept, trusted) =
          run_semantic_pipeline-Good fl (with_model fl services model) decodes (p.clock w.ticks)
            (record { llm = w.llm; cache = cache }) q sound in
        (kept, print_result-Printed _ _ trusted printed)

    semantic_queries-Sound :
        (queries : List (Result (CliError p.InputError) Text)) (s : World p × SemanticCache fl)
        → Sound s
        → Sound (for_each p (semantic_query p model) s queries).0
    semantic_queries-Sound queries s sound =
        for_each-keeps p (semantic_query p model) Sound Sound (λ s h. h)
          (λ s q h. (semantic_query-Sound s q h, λ _. semantic_query-Sound s q h)) queries s sound

  -- If what is written for a verified answer is read back as that answer, the command
  -- `ask-semantic` prints nothing, or the model was loaded and each line that it prints writes a
  -- result that can be trusted: a verified answer grounded in chunks that the store served, be it
  -- fresh or kept from an earlier question, or a degraded one that lists such chunks.
  pub run_ask_semantic-Printed :
      (query : Option Text) (w : World p)
      → ((run_ask_semantic p query w).0.out ≡ w.out)
        ⊎ ((model : Model fl services.ModelError) × ((load_model p w).1 ≡ ok model)
            × Printed model w.out (run_ask_semantic p query w).0.out)
  unfolding run_ask_semantic load_model semantic_cache new
  run_ask_semantic-Printed query w = elim (Result-cases (load_model p w).1) [
    | inr (e, failed) ↦ inl (rw failed refl)
    | inl (model, loaded) ↦ elim (Result-cases (resolve p query)) [
      | inr (e, refused) ↦ inl (rw (loaded, refused) refl)
      | inl (queries, given) ↦ inr (
        model,
        loaded,
        rw (loaded, given)
            (semantic_queries-Sound model w.out queries (_, semantic_cache fl p.settings)
              (tt, nothing)).1,
      )
    ]
  ]
