-- ===== src/Pipelines/Query/Serving/Cached.antt =====
-- The cache of src/engines/cache.rs under the interleaved requests of all doors, against the log of
-- what they insert.
use rust_enterprise_query_en.Common.{ℕ, zero, suc, List, [], ok, ◌≡◌, refl}
use mathlib.Core.Path.{subst, sym}
use rust_enterprise_query_en.Common.Text.{Text}
use rust_enterprise_query_en.Common.Floats.{Floats}
use rust_enterprise_query_en.Common.Interleaving.{System, Reach}
use rust_enterprise_query_en.Common.Interleaving.Laws.{Reach-keeps}
use rust_enterprise_query_en.Engines.AstGuard.{SqlParser}
use rust_enterprise_query_en.Engines.Cache.{SemanticCache, new}
use rust_enterprise_query_en.Engines.Cache.History.{run, note_all, Refines, run-new-Refines}
use rust_enterprise_query_en.Engines.Sql.{SqlEngine}
use rust_enterprise_query_en.Engines.Sql.Laws.{nothing}
use rust_enterprise_query_en.Pipelines.Types.{SemanticResponse, verified}
use rust_enterprise_query_en.Pipelines.Query.{Services}
use rust_enterprise_query_en.Pipelines.Query.Concurrent.Cached.{
  Made, step-Made, advance-Call, Accounted,
}
use rust_enterprise_query_en.Pipelines.Query.Router.{Dispatch, Full}
use rust_enterprise_query_en.Pipelines.Query.Serving.{
  Door, Task, prompting, posting, executing_generated, executing, inside, done, progress, doors,
}
use rust_enterprise_query_en.Pipelines.Query.Serving.Safety.{
  FineTask, Sound, begin-FineTask, progress-FineTask,
}

module _ {fl : Floats} {services : Services fl} {parser : SqlParser} {engine : SqlEngine}
    {V : Type 0} (d : Dispatch fl services parser engine V) where
  open services use {client}

  progress-Made :
      (c : SemanticCache fl) (now : ℕ) (input : Door × Text) (s : Full fl services parser engine V)
      (t : Task d)
      → FineTask d t
      → Made fl services c s.rest.cache
      → Made fl services c (progress d now input s t).0.rest.cache
  unfolding progress
  progress-Made c now (door, query) s (prompting purpose attempt zero last_err) h made = made
  progress-Made c now (door, query) s (prompting purpose attempt (suc left) last_err) h made = made
  progress-Made c now (door, query) s (posting purpose attempt left last_err) h made = made
  progress-Made c now (door, query) s (executing_generated generated_sql) h made = made
  progress-Made c now (door, query) s executing h made = made
  progress-Made c now (door, query) s (inside wrap pc) h made =
      step-Made fl services made (advance-Call fl services now query s.rest pc h)
  progress-Made c now (door, query) s (done reply) h made = made

  -- If what the writer writes for a verified answer is read back as that answer, then the cache of
  -- a server that opens with a new cache is, in every state it reaches with the requests of all
  -- doors interleaved, what a sequence of calls makes of the new cache. Each insertion among them is
  -- of a verified answer that can be trusted, as the writer writes it, and the cache holds some of
  -- what they inserted, in the order of insertion, in no more entries than the larger of its
  -- capacity and one.
  pub Reach-Accounted :
      ((r : SemanticResponse) (bytes : List ℕ)
        → services.to_vec (verified r) ≡ ok bytes
        → services.from_slice bytes ≡ ok (verified r))
      → {t : System (doors d)} (w : client.World) (sql : engine.State) (capacity : ℕ)
        (threshold : fl.F)
      → Reach
          (doors d)
          (record { rest = record { llm = w; cache = new fl capacity threshold }; sql = sql })
          t
      → Accounted fl services capacity threshold t.shared.rest.cache
  unfolding new run
  Reach-Accounted decodes {t} w sql capacity threshold r =
      let opening = new fl capacity threshold in
      let ((_, made), _) =
        Reach-keeps (doors d) (λ s. Sound d sql s × Made fl services opening s.rest.cache)
          (λ input. FineTask d) (begin-FineTask d)
          (λ now input s t (sound, made) fine.
            let (sound', fine') = progress-FineTask d decodes sql now input s t sound fine in
            ((sound', progress-Made opening now input s t fine made), fine'))
          (λ w s kept. kept) ((tt, nothing), record { calls = []; written = tt; same = refl }) r in
      record {
        calls = made.calls;
        written = made.written;
        same = made.same;
        refines =
            subst (Refines fl (note_all fl [] made.calls)) (sym made.same)
              (run-new-Refines fl capacity threshold made.calls).0;
      }
