-- ===== src/Pipelines/Ingest/Csv.antt =====
-- `process_csv_in_batches` of src/pipelines/ingest/chunker.rs over any step that processes a batch,
-- `execute_ingestion` of src/pipelines/ingest/mod.rs, and the index functions of
-- src/engines/vector.rs.
use rust_enterprise_query_en.Common.{
  ℕ, ◌+◌, Bool, true, false, ◌||◌, List, [], ◌∷◌, ◌++◌, Result, ok, err, map_err, if◌then◌else◌,
  ltb, leb, ◌==◌, length,
}
use rust_enterprise_query_en.Common.Text.{Text, codes}
use rust_enterprise_query_en.Common.Floats.{Floats}
use rust_enterprise_query_en.Engines.Embeddings.{Model}
use rust_enterprise_query_en.Pipelines.Types.{Kna1Row}
use rust_enterprise_query_en.Pipelines.Ingest.{
  IngestStore, invalid_batch_size, store_failed, csv_failed, Error, process_current_batch,
}

module _ {Db R X C : Type 0} (process : Db → List R → Db × Result X ℕ) (csv : C → X) where
  -- What follows a batch: its count is added and the loop goes on, or its error ends the loop.
  unfoldable pub continue_with : ℕ → Db × Result X ℕ → (Db → ℕ → Db × Result X ℕ) → Db × Result X ℕ
  continue_with total (db, err e) go_on = (db, err e)
  continue_with total (db, ok n) go_on = go_on db (total + n)

  -- The rows that are left over at the end.
  unfoldable pub finish : Db → List R → ℕ → Db × Result X ℕ
  finish db [] total = (db, ok total)
  finish db (r ∷ rs) total = continue_with total (process db (r ∷ rs)) λ db' n. (db', ok n)

  -- The loop over the reader's results, with `batch_records` and `total_inserted`.
  unfoldable pub read_rows : ℕ → Db → List R → ℕ → List (Result C R) → Db × Result X ℕ
  read_rows batch_size db batch total [] = finish db batch total
  read_rows batch_size db batch total (err e ∷ rest) = (db, err (csv e))
  read_rows batch_size db batch total (ok row ∷ rest) =
      elim (leb batch_size (length (batch ++ row ∷ []))) [
        | true ↦
            continue_with total (process db (batch ++ row ∷ []))
              λ db' n. read_rows batch_size db' [] n rest
        | false ↦ read_rows batch_size db (batch ++ row ∷ []) total rest
      ]

  unfoldable pub process_csv_in_batches : ℕ → Db → List (Result C R) → Db × Result X ℕ
  process_csv_in_batches batch_size db rows = read_rows batch_size db [] 0 rows

module _ (fl : Floats) (store : IngestStore fl.F) where
  open store use {Db, Table, StoreError}

  unfoldable pub create_scalar_index : Db → Table → Text → Db × Result StoreError (Unit {0})
  create_scalar_index db table column = store.create_btree_index db table column

  unfoldable pub index_counted :
      Db → Table → Text → Result StoreError ℕ → Db × Result StoreError (Unit {0})
  index_counted db table column (err e) = (db, err e)
  index_counted db table column (ok rows) =
      if ltb rows 256 then (db, ok tt) else store.create_auto_index db table column

  unfoldable pub create_vector_index : Db → Table → Text → Db × Result StoreError (Unit {0})
  create_vector_index db table column = index_counted db table column (store.count_rows table)

  unfoldable pub index_vectors :
      Table → Db × Result StoreError (Unit {0}) → Db × Result StoreError (Unit {0})
  index_vectors table (db, err e) = (db, err e)
  index_vectors table (db, ok _) = create_vector_index db table (codes "vector")

  -- The indexes are built if the table can be opened.
  unfoldable pub build_indexes : Db → Result StoreError Table → Db × Result StoreError (Unit {0})
  build_indexes db (err _) = (db, ok tt)
  build_indexes db (ok table) = index_vectors table (create_scalar_index db table (codes "kunnr"))

  module _ (E C : Type 0) (max_batch : ℕ) (model : Model fl E) where
    unfoldable pub index_ingested :
        Db × Result (Error fl store E C max_batch model) ℕ
        → Db × Result (Error fl store E C max_batch model) (Unit {0})
    index_ingested (db, err e) = (db, err e)
    index_ingested (db, ok _) =
        let out = build_indexes db (store.open_table db (codes "customers")) in
        (out.0, map_err store_failed out.1)

    -- The dropping of the table may fail, which is ignored.
    unfoldable pub prepare : Bool → Db → Db
    prepare true db = (store.drop_table db (codes "customers")).0
    prepare false db = db

    unfoldable pub ingest_opened :
        ℕ
        → Db
        → Result C (List (Result C Kna1Row))
        → Db × Result (Error fl store E C max_batch model) (Unit {0})
    ingest_opened batch_size db (err e) = (db, err (csv_failed e))
    ingest_opened batch_size db (ok rows) = index_ingested (
        process_csv_in_batches (process_current_batch fl store E C max_batch model) csv_failed
          batch_size db rows)

    -- What follows the connection to the store.
    unfoldable pub ingest_connected :
        Bool
        → ℕ
        → Db
        → Result StoreError (Unit {0})
        → Result C (List (Result C Kna1Row))
        → Db × Result (Error fl store E C max_batch model) (Unit {0})
    ingest_connected overwrite batch_size db (err e) opened = (db, err (store_failed e))
    ingest_connected overwrite batch_size db (ok _) opened =
        ingest_opened batch_size (prepare overwrite db) opened

    -- `connected` is what `lancedb::connect` gives, `opened` the rows of the file, or that it could
    -- not be opened.
    unfoldable pub execute_ingestion :
        Bool
        → ℕ
        → Db
        → Result StoreError (Unit {0})
        → Result C (List (Result C Kna1Row))
        → Db × Result (Error fl store E C max_batch model) (Unit {0})
    execute_ingestion overwrite batch_size db connected opened =
        if batch_size == 0 || ltb max_batch batch_size
        then (db, err (invalid_batch_size max_batch batch_size))
        else ingest_connected overwrite batch_size db connected opened
