-- ===== src/Engines/Vector.antt =====
-- src/engines/vector.rs: hybrid search over the vector store, and the text of its filters. The store
-- (crate `lancedb`) is a parameter; reads see one state of it. A record batch that lacks a column is
-- `none`, as the loop skips it.
pub mod FallbackSql
pub mod Exclusion
pub mod Semantic
use rust_enterprise_query_en.Common.{
  ℕ, zero, suc, Bool, true, false, not, ◌||◌, List, [], ◌∷◌, ◌++◌, map, Option, none, some, Result,
  ok, err, ◌>>=◌, if◌then◌else◌, take, ltb,
}
use rust_enterprise_query_en.Common.Text.{
  Text, codes, text_eq, is_whitespace, escape_quotes, join, strip_prefix, starts_with, contains,
}
use rust_enterprise_query_en.Common.Floats.{Floats}
use rust_enterprise_query_en.Common.Maps
use rust_enterprise_query_en.Engines.RankFusion.{fuse_ranked_candidates}
use mathlib.Core.Option

-- `split_whitespace`: the runs of characters that are no blanks.
unfoldable pub add_to_word : ℕ → List Text → List Text
add_to_word c [] = (c ∷ []) ∷ []
add_to_word c (w ∷ ws) = (c ∷ w) ∷ ws

-- The words of a text, where the first one may go on from what stood before: empty if a blank did.
unfoldable pub word_runs : Text → List Text
word_runs [] = [] ∷ []
word_runs (c ∷ s) = if is_whitespace c then [] ∷ word_runs s else add_to_word c (word_runs s)

unfoldable pub drop_empty : List Text → List Text
drop_empty [] = []
drop_empty ([] ∷ ws) = drop_empty ws
drop_empty ((c ∷ w) ∷ ws) = (c ∷ w) ∷ drop_empty ws

unfoldable pub split_whitespace : Text → List Text
split_whitespace s = drop_empty (word_runs s)

abbrev pub like_open : Text
like_open = codes "sentence LIKE '%"

abbrev pub like_close : Text
like_close = codes "%'"

abbrev pub and_between : Text
and_between = codes " AND "

-- `format!("sentence LIKE '%{}%'", escaped)`
unfoldable pub like_condition : Text → Text
like_condition word = like_open ++ (escape_quotes word ++ like_close)

unfoldable pub join_conditions : List Text → Text
join_conditions [] = codes "1=0"
join_conditions (c ∷ cs) = join and_between (c ∷ cs)

unfoldable pub build_fallback_sql : Text → Text
build_fallback_sql intent = join_conditions (map like_condition (split_whitespace intent))

pub record Row : Type 0 where
  pub kunnr : Text
  pub name : Text
  pub city : Text

-- The read side of the store: a query gives a stream of batches, each of which may fail.
pub record VectorStore (F : Type 0) : Type 1 where
  pub Connection : Type 0
  pub Table : Type 0
  pub StoreError : Type 0
  pub connect : Text → Result StoreError Connection
  pub open_table : Connection → Text → Result StoreError Table
  pub nearest_to :
      Table → List F → ℕ → Result StoreError (List (Result StoreError (Option (List Row))))
  pub only_if : Table → Text → ℕ → Result StoreError (List (Result StoreError (Option (List Row))))
  pub count_rows : Table → Result StoreError ℕ
  -- The columns of each index.
  pub list_indices : Table → Result StoreError (List (List Text))

abbrev pub Chunks : Type 0
Chunks = List (Text × Text)

-- `json!({...}).to_string()` is the parameter `chunk_json`.
module _ (chunk_json : Row → Text) where
  -- The rows of one batch: the ids in order, the chunks by id.
  unfoldable pub extract_rows : List Row → Chunks × List Text → Chunks × List Text
  extract_rows [] found = found
  extract_rows (r ∷ rs) (chunks, ids) =
      extract_rows rs (Maps.insert r.kunnr (chunk_json r) chunks, ids ++ r.kunnr ∷ [])

  unfoldable pub extract_chunks_from_stream :
      {E : Type 0}
      → List (Result E (Option (List Row)))
      → Chunks × List Text
      → Result E (Chunks × List Text)
  extract_chunks_from_stream [] found = ok found
  extract_chunks_from_stream (err e ∷ stream) found = err e
  extract_chunks_from_stream (ok none ∷ stream) found = extract_chunks_from_stream stream found
  extract_chunks_from_stream (ok (some rows) ∷ stream) found =
      extract_chunks_from_stream stream (extract_rows rows found)

abbrev pub not_prefix : Text
not_prefix = codes "NOT "

-- The loop over the fused ranking: a chunk is moved out of the map when its id comes up.
unfoldable pub take_chunks {ℓ} : {S : Type ℓ} → List (Text × S) → Chunks → List (Text × Text)
take_chunks [] chunks = []
take_chunks ((id, _) ∷ ranked) chunks = elim (Maps.lookup id chunks) [
  | none ↦ take_chunks ranked chunks
  | some chunk ↦ (id, chunk) ∷ take_chunks ranked (Maps.remove id chunks)
]

unfoldable pub any_of {ℓ} : {A : Type ℓ} → (A → Bool) → List A → Bool
any_of p [] = false
any_of p (x ∷ xs) = p x || any_of p xs

module _ (fl : Floats) (store : VectorStore fl.F) (chunk_json : Row → Text) where
  open store use {Connection, Table, StoreError, connect, open_table, nearest_to, only_if}

  -- One round of the loop over the filters, with the chunks and the lexical ids so far.
  unfoldable pub exclude : Text → Chunks × List Text → Chunks × List Text
  exclude term (chunks, ids) = (Maps.retain (λ v. not (contains term v)) chunks, ids)

  unfoldable pub include :
      Table → Text → Chunks × List Text → Result StoreError (Chunks × List Text)
  include table term (chunks, ids) = do
    stream ← only_if table (like_condition term) 20
    (chunks', new_ids) ← extract_chunks_from_stream chunk_json stream (chunks, [])
    ok (chunks', ids ++ new_ids)

  unfoldable pub apply_filter :
      Table → Text → Chunks × List Text → Result StoreError (Chunks × List Text)
  apply_filter table filter found = elim (strip_prefix not_prefix filter) [
    | some term ↦ ok (exclude term found)
    | none ↦ include table filter found
  ]

  unfoldable pub apply_filters :
      Table → List Text → Chunks × List Text → Result StoreError (Chunks × List Text)
  apply_filters table [] found = ok found
  apply_filters table (f ∷ fs) found = do
    found' ← apply_filter table f found
    apply_filters table fs found'

  module _ (iterate : List (Text × fl.F) → List (Text × fl.F)) (sixty : fl.F) where
    unfoldable pub rank_chunks : List Text → Chunks × List Text → List (Text × Text)
    rank_chunks dense_ids (chunks, lexical_ids) =
        take_chunks (take 20 (fuse_ranked_candidates fl iterate dense_ids lexical_ids sixty)) chunks

    unfoldable pub execute_hybrid_search_on_connection :
        List fl.F → Connection → List Text → Result StoreError (List (Text × Text))
    execute_hybrid_search_on_connection query_vector vector_db filters = do
      table ← open_table vector_db (codes "customers")
      vector_stream ← nearest_to table query_vector 20
      (chunks, dense_ids) ← extract_chunks_from_stream chunk_json vector_stream ([], [])
      found ← apply_filters table filters (chunks, [])
      ok (rank_chunks dense_ids found)

    unfoldable pub execute_hybrid_search :
        List fl.F → Text → List Text → Result StoreError (List (Text × Text))
    execute_hybrid_search query_vector db_uri filters = do
      vector_db ← connect db_uri
      execute_hybrid_search_on_connection query_vector vector_db filters

  -- The chunks by id; a caller that iterates over the map sees them in an order of its own.
  unfoldable pub execute_fallback_search : Text → Text → Result StoreError Chunks
  execute_fallback_search intent db_uri = do
    vector_db ← connect db_uri
    table ← open_table vector_db (codes "customers")
    stream ← only_if table (build_fallback_sql intent) 5
    (chunks, _) ← extract_chunks_from_stream chunk_json stream ([], [])
    ok chunks

  unfoldable pub check_lancedb_health : Text → Result StoreError ℕ
  check_lancedb_health db_uri = do
    vector_db ← connect db_uri
    table ← open_table vector_db (codes "customers")
    store.count_rows table

  -- `any` over the indexes and their columns.
  unfoldable pub is_vector_indexed : Text → Result StoreError Bool
  is_vector_indexed db_uri = do
    vector_db ← connect db_uri
    table ← open_table vector_db (codes "customers")
    indices ← store.list_indices table
    ok (any_of (λ columns. any_of (λ c. text_eq c (codes "vector")) columns) indices)
