-- ===== src/Pipelines/Query/Concurrent/Cached.antt =====
-- The calls that the requests of src/pipelines/query/mod.rs make of the cache of
-- src/engines/cache.rs.
use rust_enterprise_query_en.Common.{
  ℕ, zero, suc, List, [], ◌∷◌, ◌++◌, ok, ◌≡◌, refl, ap, ◌∙◌, ◌⊎◌, inl, inr, All, All-append,
}
use mathlib.Core.Path.{sym}
use rust_enterprise_query_en.Common.Text.{Text}
use rust_enterprise_query_en.Common.Floats.{Floats}
use rust_enterprise_query_en.Engines.Cache.{SemanticCache, new}
use rust_enterprise_query_en.Engines.Cache.History.{
  Call, exact, similar, put, step, run, note_all, Refines,
}
use rust_enterprise_query_en.Pipelines.Types.{SemanticResponse, verified}
use rust_enterprise_query_en.Pipelines.Query.{Services, State}
use rust_enterprise_query_en.Pipelines.Query.Grounding.{IsTrusted}
use rust_enterprise_query_en.Pipelines.Query.Concurrent.{
  Pc, begun, asking, sending, comparing, storing, finished, advance,
}
use rust_enterprise_query_en.Pipelines.Query.Concurrent.Locals.{Fine}

module _ (fl : Floats) (services : Services fl) where
  -- What is inserted is a verified answer that can be trusted, as the writer writes it.
  abbrev pub IsWritten : Call fl.F → Type 0
  IsWritten (put now i) =
      (r : SemanticResponse) × (services.to_vec (verified r) ≡ ok i.response)
      × IsTrusted fl services (verified r)
  IsWritten _ = Unit

  run-snoc :
      (c : SemanticCache fl) (calls : List (Call fl.F)) (call : Call fl.F)
      → (run fl c (calls ++ call ∷ [])).0 ≡ (step fl (run fl c calls).0 call).0
  unfolding run
  run-snoc c [] call = refl
  run-snoc c (first ∷ calls) call = run-snoc (step fl c first).0 calls call

  -- A step of a request leaves the cache as it is, or is one call of it.
  pub advance-Call :
      (now : ℕ) (query : Text) (s : State fl services) (pc : Pc fl services)
      → Fine fl services pc
      → (let after = (advance fl services now query s pc).0.cache in
          (after ≡ s.cache)
          ⊎ ((call : Call fl.F) × IsWritten call × (after ≡ (step fl s.cache call).0)))
  unfolding advance step
  advance-Call now query s begun h = inr (exact now query, tt, refl)
  advance-Call now query s (asking purpose attempt zero last_err) h = inl refl
  advance-Call now query s (asking purpose attempt (suc left) last_err) h = inl refl
  advance-Call now query s (sending purpose attempt left last_err) h = inl refl
  advance-Call now query s (comparing parsed v) h = inr (similar now v, tt, refl)
  advance-Call now query s (storing v payload bytes) (trusted, written) = inr (
    put now (record { query = query; embedding = v; response = bytes }),
    (payload, written, trusted),
    refl,
  )
  advance-Call now query s (finished r) h = inl refl

  -- The calls that have made the cache what it is.
  pub record Made (c c' : SemanticCache fl) : Type 0 where
    pub calls : List (Call fl.F)
    pub written : All IsWritten calls
    pub same : c' ≡ (run fl c calls).0

  pub step-Made :
      {c d e : SemanticCache fl}
      → Made c d
      → (e ≡ d) ⊎ ((call : Call fl.F) × IsWritten call × (e ≡ (step fl d call).0))
      → Made c e
  step-Made m (inl same) = record { calls = m.calls; written = m.written; same = same ∙ m.same }
  step-Made {c} m (inr (call, w, same)) = record {
    calls = m.calls ++ call ∷ [];
    written = All-append IsWritten m.calls (call ∷ []) m.written (w, tt);
    same = same ∙ ap (λ x. (step fl x call).0) m.same ∙ sym (run-snoc c m.calls call);
  }

  -- The cache as the abstract cache has it: some of what the calls have inserted.
  pub record Accounted (capacity : ℕ) (threshold : fl.F) (c : SemanticCache fl) : Type 0 where
    pub calls : List (Call fl.F)
    pub written : All IsWritten calls
    pub same : c ≡ (run fl (new fl capacity threshold) calls).0
    pub refines : Refines fl (note_all fl [] calls) c
