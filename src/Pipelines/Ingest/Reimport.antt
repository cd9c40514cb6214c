-- ===== src/Pipelines/Ingest/Reimport.antt =====
-- A file that is imported again, by `execute_ingestion` of src/pipelines/ingest/mod.rs.
use rust_enterprise_query_en.Common.{
  ℕ, false, List, map, Option, none, some, ok, ◌≡◌, refl, sym, ap, ◌∙◌,
}
use rust_enterprise_query_en.Common.Text.{Text}
use rust_enterprise_query_en.Common.Floats.{Floats}
use rust_enterprise_query_en.Engines.Embeddings.{Model}
use rust_enterprise_query_en.Pipelines.Types.{Kna1Row}
use rust_enterprise_query_en.Pipelines.Ingest.{IngestStore}
use rust_enterprise_query_en.Pipelines.Ingest.Csv.{prepare, execute_ingestion}
use rust_enterprise_query_en.Pipelines.Ingest.Contents.{entry_of, first_of, or_else, StoreLaws}
use rust_enterprise_query_en.Pipelines.Ingest.Importing.{execute_ingestion-Adds}

or_else_twice {ℓ} : {A : Type ℓ} (o p : Option A) → or_else (or_else o p) p ≡ or_else o p
or_else_twice none none = refl
or_else_twice none (some b) = refl
or_else_twice (some a) p = refl

module _ (fl : Floats) (store : IngestStore fl.F) (laws : StoreLaws fl store) (E C : Type 0)
    (max_batch : ℕ) (model : Model fl E) where
  -- The import of readable rows from a file that can be opened, into what is there.
  abbrev pub import : ℕ → store.Db → List Kna1Row → store.Db
  import batch_size db rows =
      (execute_ingestion fl store E C max_batch model false batch_size db (ok tt)
        (ok (map ok rows))).0

  abbrev pub Succeeds : ℕ → store.Db → List Kna1Row → Type 0
  Succeeds batch_size db rows =
      (execute_ingestion fl store E C max_batch model false batch_size db (ok tt)
        (ok (map ok rows))).1
      ≡ ok tt

  -- Where the laws of the store hold, importing a file again, with whatever batch size, changes
  -- nothing that is stored under any key, if both imports succeed and neither overwrites.
  pub import-import_same :
      (batch_size again : ℕ) (db : store.Db) (rows : List Kna1Row)
      → Succeeds batch_size db rows
      → Succeeds again (import batch_size db rows) rows
      → (k : Text)
      → laws.contents (import again (import batch_size db rows) rows) k
        ≡ laws.contents (import batch_size db rows) k
  unfolding prepare
  import-import_same batch_size again db rows first second k =
      let added =
        execute_ingestion-Adds fl store laws E C max_batch model false batch_size db rows first k in
      let unchanged =
        execute_ingestion-Adds fl store laws E C max_batch model false again _ rows second k in
      let new = first_of k (map entry_of rows) in
      unchanged ∙ ap (λ o. or_else o new) added ∙ or_else_twice (laws.contents db k) new ∙ sym added
