-- ===== src/Engines/Vector/Semantic.antt =====
-- The entry points of src/engines/vector.rs for a text: embed it, then search.
use rust_enterprise_query_en.Common.{ℕ, List, [], ◌∷◌, Result, ok, err, ◌>>=◌, map_err}
use rust_enterprise_query_en.Common.Text.{Text}
use rust_enterprise_query_en.Common.Floats.{Floats}
use rust_enterprise_query_en.Common.Maps
use rust_enterprise_query_en.Engines.Embeddings.{Model, EmbeddingError, get_embeddings}
use rust_enterprise_query_en.Engines.Vector.{
  VectorStore, Row, Chunks, execute_hybrid_search, execute_hybrid_search_on_connection,
}

pub data SearchError (S E : Type 0) : Type 0 where
  store_failed : S → SearchError S E
  embedding_failed : EmbeddingError E → SearchError S E
  no_embedding : SearchError S E

-- `into_iter().next().ok_or_else(...)`
unfoldable pub first_vector : {F S E : Type 0} → List (List F) → Result (SearchError S E) (List F)
first_vector [] = err no_embedding
first_vector (v ∷ vs) = ok v

-- `collect` into a map: a later chunk takes the place of an earlier one with the same id.
unfoldable pub collect_chunks : List (Text × Text) → Chunks → Chunks
collect_chunks [] chunks = chunks
collect_chunks ((id, chunk) ∷ ordered) chunks = collect_chunks ordered (Maps.insert id chunk chunks)

module _ (fl : Floats) (store : VectorStore fl.F) (chunk_json : Row → Text)
    (iterate : List (Text × fl.F) → List (Text × fl.F)) (sixty : fl.F) where
  open store use {Connection, StoreError}

  unfoldable pub execute_semantic_search_vector :
      List fl.F → Text → List Text → Result StoreError (List (Text × Text))
  execute_semantic_search_vector query_vector db_uri filters =
      execute_hybrid_search fl store chunk_json iterate sixty query_vector db_uri filters

  unfoldable pub execute_semantic_search_vector_on_connection :
      List fl.F → Connection → List Text → Result StoreError (List (Text × Text))
  execute_semantic_search_vector_on_connection query_vector vector_db filters =
      execute_hybrid_search_on_connection fl store chunk_json iterate sixty query_vector vector_db
        filters

  unfoldable pub execute_semantic_search :
      {E : Type 0}
      → ℕ
      → Model fl E
      → Text
      → Text
      → List Text
      → Result (SearchError StoreError E) Chunks
  execute_semantic_search max_batch model query db_uri filters = do
    embeddings ← map_err embedding_failed (get_embeddings fl max_batch model (query ∷ []))
    query_vector ← first_vector embeddings
    ordered ← map_err store_failed (execute_semantic_search_vector query_vector db_uri filters)
    ok (collect_chunks ordered [])
