-- ===== src/Pipelines/Query/Setup.antt =====
-- `AppState::new` and the setters of src/pipelines/query/mod.rs: what the pipeline is given. A setting
-- that is not set or does not parse is `none`.
use rust_enterprise_query_en.Common.{ℕ, List, Option, none, Result}
use rust_enterprise_query_en.Common.Text.{Text}
use rust_enterprise_query_en.Common.Floats.{Floats}
use rust_enterprise_query_en.Engines.Cache.{SemanticCache, new}
use rust_enterprise_query_en.Engines.Embeddings.{Model}
use rust_enterprise_query_en.Pipelines.Query.{Services}
use mathlib.Core.Option

module _ (fl : Floats) where
  -- `SEMANTIC_CACHE_CAPACITY`, `SEMANTIC_CACHE_THRESHOLD` and `MAX_QUERY_CHARS`, and the number 0.95.
  pub record Settings : Type 0 where
    pub capacity : Option ℕ
    pub threshold : Option fl.F
    pub query_chars : Option ℕ
    pub default_threshold : fl.F

  unfoldable pub max_query_chars : Settings → ℕ
  max_query_chars settings = Option.get_or settings.query_chars 4096

  unfoldable pub semantic_cache : Settings → SemanticCache fl
  semantic_cache settings =
      new fl (Option.get_or settings.capacity 1024)
        (Option.get_or settings.threshold settings.default_threshold)

  -- A new state keeps no connection and has no cross-encoder.
  abbrev pub with_model : (services : Services fl) → Model fl services.ModelError → Services fl
  with_model services model = record services {
    model = model;
    lancedb_conn = none;
    cross_encoder = none;
  }

  unfoldable pub with_cross_encoder :
      (services : Services fl)
      → Option (Text → List Text → Result services.ScorerError (List fl.F))
      → Services fl
  with_cross_encoder services cross_encoder = record services { cross_encoder = cross_encoder }

  unfoldable pub with_lancedb_connection :
      (services : Services fl) → Option services.store.Connection → Services fl
  with_lancedb_connection services conn = record services { lancedb_conn = conn }
