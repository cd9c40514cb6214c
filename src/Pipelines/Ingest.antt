-- ===== src/Pipelines/Ingest.antt =====
-- src/pipelines/ingest: reading rows in batches, dropping those that are known, embedding and storing
-- the others, and building the indexes; with `insert_batch` and the index functions of
-- src/engines/vector.rs. The store (crate `lancedb`), the assembly of a record batch (crate `arrow`)
-- and the CSV reader, which gives each row or an error, are parameters.
pub mod Dedup
pub mod Csv
pub mod Batching
pub mod Contents
pub mod Writing
pub mod Importing
pub mod Reimport
use rust_enterprise_query_en.Common.{
  ℕ, zero, suc, ◌+◌, Bool, true, false, not, ◌||◌, List, [], ◌∷◌, ◌++◌, map, Option, none, some,
  Result, ok, err, ◌>>=◌, map_err, if◌then◌else◌, ltb, leb, ◌==◌, length,
}
use rust_enterprise_query_en.Common.Text.{Text, codes, quote, join, text_eq}
use rust_enterprise_query_en.Common.Floats.{Floats}
use rust_enterprise_query_en.Engines.Embeddings.{Model, EmbeddingError, get_embeddings}
use rust_enterprise_query_en.Pipelines.Types.{Kna1Row}
use mathlib.Core.Option
use mathlib.Core.List.{filter_map}

-- A stored record: name, city and key.
abbrev pub Record : Type 0
Record = Text × Text × Text

-- The write side of the store: an operation gives the store afterwards and its result.
pub record IngestStore (F : Type 0) : Type 1 where
  pub Db : Type 0
  pub Table : Type 0
  pub Batch : Type 0
  pub StoreError : Type 0
  pub open_table : Db → Text → Result StoreError Table
  pub query_kunnr : Table → Text → Result StoreError (List (Result StoreError (Option (List Text))))
  pub make_batch : List Record → List Text → List (List F) → Result StoreError Batch
  pub merge_insert : Db → Table → Text → Batch → Db × Result StoreError (Unit {0})
  pub create_table : Db → Text → Batch → Db × Result StoreError (Unit {0})
  pub drop_table : Db → Text → Db × Result StoreError (Unit {0})
  pub count_rows : Table → Result StoreError ℕ
  pub create_btree_index : Db → Table → Text → Db × Result StoreError (Unit {0})
  pub create_auto_index : Db → Table → Text → Db × Result StoreError (Unit {0})

pub data IngestError (S E C : Type 0) : Type 0 where
  invalid_batch_size : (max received : ℕ) → IngestError S E C
  store_failed : S → IngestError S E C
  embedding_failed : E → IngestError S E C
  csv_failed : C → IngestError S E C

-- `contains` of a set of keys.
unfoldable pub has_key : Text → List Text → Bool
has_key k [] = false
has_key k (j ∷ ks) = text_eq j k || has_key k ks

abbrev pub unknown : Text
unknown = codes "Unknown"

-- `row.kunnr.clone().unwrap_or_else(|| "Unknown".to_string())`
unfoldable pub key_of : Kna1Row → Text
key_of row = Option.get_or row.kunnr unknown

unfoldable pub document_of : Kna1Row → Text
document_of row =
    codes "Customer "
    ++ (key_of row
        ++ (codes " is named "
            ++ (Option.get_or row.name1 unknown
                ++ (codes " and is located in "
                    ++ (Option.get_or row.ort01 unknown
                        ++ (codes ", " ++ (Option.get_or row.land1 unknown ++ codes ".")))))))

unfoldable pub record_of : Kna1Row → Record
record_of row = (Option.get_or row.name1 unknown, Option.get_or row.ort01 unknown, key_of row)

-- The loop over a batch: the rows that are kept, with the keys seen so far. A key is added to the
-- set before the second test, so it counts as seen in either case.
unfoldable pub select_new : List Text → List Text → List Kna1Row → List Kna1Row
select_new existing seen [] = []
select_new existing seen (row ∷ rows) =
    let rest = select_new existing (key_of row ∷ seen) rows in
    if has_key (key_of row) seen || has_key (key_of row) existing then rest else row ∷ rest

-- `format!("'{}'", customer_id)`, for the rows that have one.
unfoldable pub id_literal : Text → Text
id_literal id = quote ∷ (id ++ (quote ∷ []))

unfoldable pub ids_for_sql : List Kna1Row → List Text
ids_for_sql [] = []
ids_for_sql (row ∷ rows) = elim row.kunnr [
  | none ↦ ids_for_sql rows
  | some id ↦ id_literal id ∷ ids_for_sql rows
]

unfoldable pub existing_filter : List Text → Text
existing_filter ids = codes "kunnr IN (" ++ (join (codes ", ") ids ++ codes ")")

-- The keys of the batches that could be read and have the column.
unfoldable pub stream_keys : {E : Type 0} → List (Result E (Option (List Text))) → List Text
stream_keys [] = []
stream_keys (ok (some keys) ∷ stream) = keys ++ stream_keys stream
stream_keys (ok none ∷ stream) = stream_keys stream
stream_keys (err _ ∷ stream) = stream_keys stream

module _ (fl : Floats) (store : IngestStore fl.F) where
  open store use {Db, Table, StoreError, open_table, query_kunnr}

  unfoldable pub query_existing : Result StoreError Table → List Text → List Text
  query_existing (err _) ids = []
  query_existing (ok table) ids = elim (query_kunnr table (existing_filter ids)) [
    | ok stream ↦ stream_keys stream
    | err _ ↦ []
  ]

  unfoldable pub find_existing_in_db : Db → List Text → List Text
  find_existing_in_db db ids =
      if length ids == 0 then [] else query_existing (open_table db (codes "customers")) ids

  unfoldable pub write_batch :
      Db → Result StoreError Table → store.Batch → Db × Result StoreError (Unit {0})
  write_batch db (ok table) batch = store.merge_insert db table (codes "kunnr") batch
  write_batch db (err _) batch = store.create_table db (codes "customers") batch

  unfoldable pub insert_batch :
      Db → List Record → List Text → List (List fl.F) → Db × Result StoreError (Unit {0})
  insert_batch db records documents embeddings =
      elim (store.make_batch records documents embeddings) [
        | err e ↦ (db, err e)
        | ok batch ↦ write_batch db (open_table db (codes "customers")) batch
      ]

  module _ (E C : Type 0) (max_batch : ℕ) (model : Model fl E) where
    abbrev pub Error : Type 0
    Error = IngestError StoreError (EmbeddingError E) C

    unfoldable pub store_rows :
        Db → List Kna1Row → Result (EmbeddingError E) (List (List fl.F)) → Db × Result Error ℕ
    store_rows db rows (err e) = (db, err (embedding_failed e))
    store_rows db rows (ok embeddings) =
        let out = insert_batch db (map record_of rows) (map document_of rows) embeddings in
        (out.0, map_err store_failed out.1 >>= λ _. ok (length rows))

    -- The rows that are new are embedded and stored; their number is returned.
    unfoldable pub store_new : Db → List Kna1Row → Db × Result Error ℕ
    store_new db [] = (db, ok 0)
    store_new db (row ∷ rows) =
        store_rows db (row ∷ rows)
          (get_embeddings fl max_batch model (map document_of (row ∷ rows)))

    unfoldable pub process_current_batch : Db → List Kna1Row → Db × Result Error ℕ
    process_current_batch db batch_records =
        store_new db
          (select_new (find_existing_in_db db (ids_for_sql batch_records)) [] batch_records)
