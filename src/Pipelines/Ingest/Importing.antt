-- ===== src/Pipelines/Ingest/Importing.antt =====
-- What an import leaves in the store: the rows that were there, and the first row of each new key.
use rust_enterprise_query_en.Common.{
  ℕ, Bool, ◌||◌, ltb, ◌+◌, ◌<◌, List, [], ◌∷◌, map, Result, ok, err, ◌≡◌, refl, sym, ap, ◌∙◌, arith,
  Bool-cases, inl, inr, Option-cases, Result-cases, length, ◌==◌,
}
use mathlib.Core.Path.{subst}
use mathlib.Core.List.{flatten}
use rust_enterprise_query_en.Common.Floats.{Floats}
use rust_enterprise_query_en.Engines.Embeddings.{Model, EmbeddingError, get_embeddings}
use rust_enterprise_query_en.Pipelines.Types.{Kna1Row}
use rust_enterprise_query_en.Pipelines.Ingest.{
  csv_failed, IngestStore, Error, has_key, document_of, record_of, select_new, find_existing_in_db,
  ids_for_sql, insert_batch, store_rows, store_new, process_current_batch,
}
use rust_enterprise_query_en.Pipelines.Ingest.Dedup.{AllNew, select_new-AllNew}
use rust_enterprise_query_en.Pipelines.Ingest.Batching.{run_batches, pieces, process_csv-pieces}
use rust_enterprise_query_en.Pipelines.Ingest.Csv.{
  index_ingested, prepare, execute_ingestion, ingest_connected, ingest_opened, continue_with,
  process_csv_in_batches,
}
use rust_enterprise_query_en.Pipelines.Ingest.Contents.{
  entry_of, first_of, or_else, customers, StoreLaws, or_else-none, first_of-select_new,
}
use rust_enterprise_query_en.Pipelines.Ingest.Writing.{
  entries-append, Adds, Adds-trans, insert_batch-Adds, existing_stored, build_indexes-keeps,
}

module _ (fl : Floats) (store : IngestStore fl.F) (laws : StoreLaws fl store) where
  open store use {Db, Table, StoreError}
  open laws use {contents}

  module _ (E C : Type 0) (max_batch : ℕ) (model : Model fl E) where
    store_rows-Adds :
        (db : Db) (rows : List Kna1Row) (r : Result (EmbeddingError E) (List (List fl.F))) (n : ℕ)
        → AllNew [] rows
        → (store_rows fl store E C max_batch model db rows r).1 ≡ ok n
        → Adds fl store laws db
            (map entry_of rows)
            (store_rows fl store E C max_batch model db rows r).0
    unfolding store_rows
    store_rows-Adds db rows (err e) n new h = absurd (ground arith)
    store_rows-Adds db rows (ok vectors) n new h =
        elim (Result-cases
          (insert_batch fl store db (map record_of rows) (map document_of rows) vectors).1) [
            | inl (tt, e) ↦ insert_batch-Adds fl store laws db rows vectors new e
            | inr (f, e) ↦ absurd (ground arith)
          ]

    store_new-Adds :
        (db : Db) (rows : List Kna1Row) (n : ℕ)
        → AllNew [] rows
        → (store_new fl store E C max_batch model db rows).1 ≡ ok n
        → Adds fl store laws db
            (map entry_of rows)
            (store_new fl store E C max_batch model db rows).0
    unfolding store_new first_of
    store_new-Adds db [] n new h = λ k. or_else-none (contents db k)
    store_new-Adds db (row ∷ rows) n new h =
        store_rows-Adds db (row ∷ rows)
          (get_embeddings fl max_batch model (map document_of (row ∷ rows))) n new h

    -- A batch adds its rows.
    process_current_batch-Adds :
        (db : Db) (rows : List Kna1Row) (n : ℕ)
        → (process_current_batch fl store E C max_batch model db rows).1 ≡ ok n
        → Adds fl store laws db
            (map entry_of rows)
            (process_current_batch fl store E C max_batch model db rows).0
    unfolding process_current_batch has_key
    process_current_batch-Adds db rows n h k =
        let existing = find_existing_in_db fl store db (ids_for_sql rows) in
        let chosen = select_new existing [] rows in
        let stored = store_new-Adds db chosen n (select_new-AllNew existing [] rows).1 h k in
        elim (Option-cases (contents db k)) [
          | inl e ↦
              let same =
                first_of-select_new existing [] rows k
                  (existing_stored fl store laws db (ids_for_sql rows) k e) refl in
              stored ∙ ap (or_else (contents db k)) same
          | inr (x, e) ↦
              let same : or_else (contents db k) (first_of k (map entry_of chosen))
                  ≡ or_else (contents db k) (first_of k (map entry_of rows)) =
                rw e refl in
              stored ∙ same
        ]

    run_batches-Adds :
        (csv : C → Error fl store E C max_batch model) (db : Db) (total : ℕ)
        (bs : List (List Kna1Row)) (n : ℕ)
        → (run_batches (process_current_batch fl store E C max_batch model) csv db total bs).1
          ≡ ok n
        → Adds fl store laws db
            (map entry_of (flatten bs))
            (run_batches (process_current_batch fl store E C max_batch model) csv db total bs).0
    unfolding run_batches continue_with flatten first_of
    run_batches-Adds csv db total [] n h = λ k. or_else-none (contents db k)
    run_batches-Adds csv db total (b ∷ bs) n h =
        let out = process_current_batch fl store E C max_batch model db b in
        elim (Result-cases out.1) [
          | inr (f, e) ↦ absurd (ground arith)
          | inl (m, e) ↦
              let here = process_current_batch-Adds db b m e in
              let there = run_batches-Adds csv out.0 (total + m) bs n (rw e at h) in
              rw e (
                subst
                  (λ es.
                    Adds fl store laws db es
                      (run_batches (process_current_batch fl store E C max_batch model) csv out.0
                        (total + m) bs).0)
                  (sym (entries-append b (flatten bs)))
                  (Adds-trans fl store laws db out.0 _ (map entry_of b) (map entry_of (flatten bs))
                    here there))
        ]

    index_ingested-keeps :
        (out : Db × Result (Error fl store E C max_batch model) ℕ)
        → contents (index_ingested fl store E C max_batch model out).0 ≡ contents out.0
    unfolding index_ingested
    index_ingested-keeps (db, err e) = refl
    index_ingested-keeps (db, ok n) =
        build_indexes-keeps fl store laws db (store.open_table db customers)

    index_ingested_ok :
        (out : Db × Result (Error fl store E C max_batch model) ℕ)
        → (index_ingested fl store E C max_batch model out).1 ≡ ok tt
        → (n : ℕ) × (out.1 ≡ ok n)
    unfolding index_ingested
    index_ingested_ok (db, err e) h = absurd (ground arith)
    index_ingested_ok (db, ok n) h = (n, refl)

    -- The rows in batches, and then the indexes.
    index_batches-Adds :
        (batch_size : ℕ) (db : Db) (rows : List Kna1Row)
        → 0 < batch_size
        → let out = index_ingested fl store E C max_batch model (
            process_csv_in_batches
              (process_current_batch fl store E C max_batch model)
              csv_failed
              batch_size
              db
              (map ok rows)) in
          out.1 ≡ ok tt → Adds fl store laws db (map entry_of rows) out.0
    index_batches-Adds batch_size db rows positive h k =
        let process = process_current_batch fl store E C max_batch model in
        let (same, glued, _) = process_csv-pieces process csv_failed batch_size db rows positive in
        let out = process_csv_in_batches process csv_failed batch_size db (map ok rows) in
        let (n, e) = index_ingested_ok out h in
        let added =
          run_batches-Adds csv_failed db 0 (pieces batch_size (length rows) rows) n
            (ap (λ p. p.1) (sym same) ∙ e) in
        ap (λ f. f k) (index_ingested-keeps out)
        ∙ ap (λ p. contents p.0 k) same
        ∙ added k
        ∙ ap (λ rs. or_else (contents db k) (first_of k (map entry_of rs))) glued

    -- Where the laws of the store hold, an import of readable rows that succeeds leaves, under each
    -- key, what was stored before the import, or, where nothing was, the entry of the file's first
    -- row with that key: whatever the batch size is. With `overwrite`, before the import means
    -- after the table was dropped.
    pub execute_ingestion-Adds :
        (overwrite : Bool) (batch_size : ℕ) (db : Db) (rows : List Kna1Row)
        → (execute_ingestion fl store E C max_batch model overwrite batch_size db
            (ok tt)
            (ok (map ok rows))).1
          ≡ ok tt
        → Adds fl store laws
            (prepare fl store E C max_batch model overwrite db)
            (map entry_of rows)
            (execute_ingestion fl store E C max_batch model overwrite batch_size db
              (ok tt)
              (ok (map ok rows))).0
    unfolding execute_ingestion ingest_connected ingest_opened
    execute_ingestion-Adds overwrite batch_size db rows h =
        elim (Bool-cases (batch_size == 0 || ltb max_batch batch_size)) [
          | inl refused ↦ absurd (ground arith)
          | inr accepted ↦
              let positive : 0 < batch_size = ground arith in
              rw accepted (
                index_batches-Adds batch_size (prepare fl store E C max_batch model overwrite db)
                  rows positive (rw accepted at h))
        ]
