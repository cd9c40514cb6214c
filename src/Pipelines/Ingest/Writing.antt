-- ===== src/Pipelines/Ingest/Writing.antt =====
-- What writing a batch leaves in the store, and building its indexes.
use rust_enterprise_query_en.Common.{
  ℕ, ltb, false, List, [], ◌∷◌, ◌++◌, map, none, Result, ok, err, ◌≡◌, refl, sym, ap, ◌∙◌, arith,
  Bool-cases, inl, inr, Result-cases, length, ◌==◌,
}
use mathlib.Core.Path.{subst}
use rust_enterprise_query_en.Common.Text.{Text, codes}
use rust_enterprise_query_en.Common.Floats.{Floats}
use rust_enterprise_query_en.Pipelines.Types.{Kna1Row}
use rust_enterprise_query_en.Pipelines.Ingest.{
  Record, IngestStore, has_key, document_of, record_of, stream_keys, existing_filter,
  query_existing, find_existing_in_db, write_batch, insert_batch,
}
use rust_enterprise_query_en.Pipelines.Ingest.Dedup.{AllNew}
use rust_enterprise_query_en.Pipelines.Ingest.Csv.{
  build_indexes, index_vectors, create_scalar_index, create_vector_index, index_counted,
}
use rust_enterprise_query_en.Pipelines.Ingest.Contents.{
  Entry, entry_of, first_of, or_else, DistinctKeys, customers, StoreLaws, or_else_assoc,
  first_of-append, zip-map, AllNew-DistinctKeys,
}

pub entries-append :
    (xs ys : List Kna1Row) → map entry_of (xs ++ ys) ≡ map entry_of xs ++ map entry_of ys
entries-append [] ys = refl
entries-append (x ∷ xs) ys = ap (◌∷◌ (entry_of x)) (entries-append xs ys)

module _ (fl : Floats) (store : IngestStore fl.F) (laws : StoreLaws fl store) where
  open store use {Db, Table, StoreError}
  open laws use {contents}

  -- The store afterwards holds what it held, and for the other keys the first of the entries.
  abbrev pub Adds : Db → List Entry → Db → Type 0
  Adds db es db' = (k : Text) → contents db' k ≡ or_else (contents db k) (first_of k es)

  pub Adds-trans :
      (db mid db' : Db) (es fs : List Entry)
      → Adds db es mid
      → Adds mid fs db'
      → Adds db (es ++ fs) db'
  Adds-trans db mid db' es fs here there k =
      there k
      ∙ ap (λ o. or_else o (first_of k fs)) (here k)
      ∙ or_else_assoc (contents db k) (first_of k es) (first_of k fs)
      ∙ ap (or_else (contents db k)) (sym (first_of-append k es fs))

  write_batch-Adds :
      (db : Db) (opened : Result StoreError Table) (b : store.Batch)
      → store.open_table db customers ≡ opened
      → DistinctKeys (laws.batch_rows b)
      → (write_batch fl store db opened b).1 ≡ ok tt
      → Adds db (laws.batch_rows b) (write_batch fl store db opened b).0
  unfolding write_batch
  write_batch-Adds db (ok t) b opened distinct h k = laws.merged db t b opened h distinct k
  write_batch-Adds db (err e) b opened distinct h k =
      let (was, now) = laws.created db b h distinct k in rw (was, now) refl

  insert_batch_made :
      (db : Db) (records : List Record) (documents : List Text) (vectors : List (List fl.F))
      (b : store.Batch)
      → store.make_batch records documents vectors ≡ ok b
      → insert_batch fl store db records documents vectors
        ≡ write_batch fl store db (store.open_table db customers) b
  unfolding insert_batch
  insert_batch_made db records documents vectors b made = rw (made, insert_batch) refl

  pub insert_batch-Adds :
      (db : Db) (rows : List Kna1Row) (vectors : List (List fl.F))
      → AllNew [] rows
      → (insert_batch fl store db (map record_of rows) (map document_of rows) vectors).1 ≡ ok tt
      → Adds db
          (map entry_of rows)
          (insert_batch fl store db (map record_of rows) (map document_of rows) vectors).0
  unfolding insert_batch
  insert_batch-Adds db rows vectors new h =
      elim (Result-cases (store.make_batch (map record_of rows) (map document_of rows) vectors)) [
        | inr (e, failed) ↦ absurd (ground arith)
        | inl (b, made) ↦
            let e = laws.make_batch_rows _ _ _ b made ∙ zip-map rows in
            let distinct = subst DistinctKeys (sym e) (AllNew-DistinctKeys [] rows new) in
            let same =
              insert_batch_made db (map record_of rows) (map document_of rows) vectors b made in
            let written =
              write_batch-Adds db (store.open_table db customers) b refl distinct
                (ap (λ p. p.1) (sym same) ∙ h) in
            subst (λ out. Adds db (map entry_of rows) out.0) (sym same)
              (subst
                (λ es. Adds db es (write_batch fl store db (store.open_table db customers) b).0) e
                written)
      ]

  -- Only stored keys are taken for existing ones.
  query_existing_stored :
      (db : Db) (opened : Result StoreError Table) (ids : List Text) (k : Text)
      → store.open_table db customers ≡ opened
      → contents db k ≡ none
      → has_key k (query_existing fl store opened ids) ≡ false
  unfolding query_existing has_key
  query_existing_stored db (err e) ids k opened h = refl
  query_existing_stored db (ok t) ids k opened h =
      elim (Result-cases (store.query_kunnr t (existing_filter ids))) [
        | inr (e, failed) ↦ rw (failed, query_existing) refl
        | inl (stream, got) ↦
            rw (got, query_existing)
              (elim (Bool-cases (has_key k (stream_keys stream))) [
                | inr missing ↦ missing
                | inl has ↦
                    let (e, there) =
                      laws.reported db t (existing_filter ids) stream opened got k has in
                    cc
              ])
      ]

  pub existing_stored :
      (db : Db) (ids : List Text) (k : Text)
      → contents db k ≡ none
      → has_key k (find_existing_in_db fl store db ids) ≡ false
  unfolding find_existing_in_db has_key
  existing_stored db ids k h = elim (Bool-cases (length ids == 0)) [
    | inl none_given ↦ rw none_given refl
    | inr given ↦ rw given (query_existing_stored db (store.open_table db customers) ids k refl h)
  ]

  index_counted-keeps :
      (db : Db) (t : Table) (c : Text) (rows : Result StoreError ℕ)
      → contents (index_counted fl store db t c rows).0 ≡ contents db
  unfolding index_counted
  index_counted-keeps db t c (err e) = refl
  index_counted-keeps db t c (ok n) = elim (Bool-cases (ltb n 256)) [
    | inl few ↦ rw few refl
    | inr many ↦ rw many (laws.auto_keeps db t c)
  ]

  index_vectors-keeps :
      (t : Table) (out : Db × Result StoreError (Unit {0}))
      → contents (index_vectors fl store t out).0 ≡ contents out.0
  unfolding index_vectors create_vector_index
  index_vectors-keeps t (db, err e) = refl
  index_vectors-keeps t (db, ok _) = index_counted-keeps db t (codes "vector") (store.count_rows t)

  pub build_indexes-keeps :
      (db : Db) (opened : Result StoreError Table)
      → contents (build_indexes fl store db opened).0 ≡ contents db
  unfolding build_indexes create_scalar_index
  build_indexes-keeps db (err e) = refl
  build_indexes-keeps db (ok t) =
      index_vectors-keeps t (store.create_btree_index db t (codes "kunnr"))
      ∙ laws.btree_keeps db t (codes "kunnr")
