-- ===== src/Tests/ImportTests.antt =====
-- An import at a concrete input.
use mathlib.Core.Option
use mathlib.Core.List.{zip}
use rust_enterprise_query_en.Common.{
  ℕ, true, false, List, [], ◌∷◌, ◌++◌, map, Option, none, some, Result, ok, err, ◌≡◌, refl,
}
use rust_enterprise_query_en.Common.Text.{Text, codes, text_eq}
use rust_enterprise_query_en.Pipelines.Types.{Kna1Row}
use rust_enterprise_query_en.Pipelines.Ingest.{
  Record, IngestStore, has_key, key_of, select_new, stream_keys, ids_for_sql, query_existing,
  find_existing_in_db, write_batch, insert_batch, store_rows, store_new, process_current_batch,
}
use rust_enterprise_query_en.Engines.Embeddings.{
  get_embeddings, get_embeddings_batch, embed_flat, try_new, checked_mul, checked_add, get_range,
  row, rows_from, into_vecs, normalize_chunks, normalize_vector_slice, max_abs_of, scaled_norm,
  divide_by_norm, Model,
}
use rust_enterprise_query_en.Pipelines.Ingest.Csv.{
  continue_with, finish, read_rows, process_csv_in_batches, index_ingested, build_indexes,
  index_vectors, create_scalar_index, create_vector_index, index_counted, prepare,
  execute_ingestion, ingest_connected, ingest_opened,
}
use rust_enterprise_query_en.Pipelines.Ingest.Contents.{
  Entry, entry_of, first_of, DistinctKeys, StoreLaws, first_of-append,
}
use rust_enterprise_query_en.Pipelines.Ingest.Reimport.{import, Succeeds, import-import_same}
use rust_enterprise_query_en.Pipelines.Ingest.Importing.{execute_ingestion-Adds}
use rust_enterprise_query_en.Pipelines.Ingest.Writing.{Adds}
use rust_enterprise_query_en.Tests.Concrete.{numbers}

-- A store that keeps the entries in the order in which they came; it serves no queries.
abbrev pub table : IngestStore ℕ
table = record {
  Db = List Entry;
  Table = Unit;
  Batch = List Entry;
  StoreError = ℕ;
  open_table = λ db name. ok tt;
  query_kunnr = λ t filter. err 1;
  make_batch = λ records documents vectors. ok (zip records documents);
  merge_insert = λ db t key batch. (db ++ batch, ok tt);
  create_table = λ db name batch. (db, err 2);
  drop_table = λ db name. ([], ok tt);
  count_rows = λ t. ok 0;
  create_btree_index = λ db t column. (db, ok tt);
  create_auto_index = λ db t column. (db, ok tt);
}

made :
    (records : List Record) (documents : List Text) (vectors : List (List ℕ)) (b : List Entry)
    → Path (Result ℕ (List Entry)) (ok (zip records documents)) (ok b)
    → b ≡ zip records documents
made records documents vectors b h = cc

never_created :
    (db b : List Entry)
    → Path (Result ℕ (Unit {0})) (err 2) (ok tt)
    → DistinctKeys b
    → (k : Text) → (first_of k db ≡ none) × (first_of k db ≡ first_of k b)
never_created db b h distinct k = cc

never_reported :
    (db : List Entry) (t : Unit {0}) (filter : Text) (stream : List (Result ℕ (Option (List Text))))
    → Path (Result ℕ (Unit {0})) (ok tt) (ok t)
    → Path (Result ℕ (List (Result ℕ (Option (List Text))))) (err 1) (ok stream)
    → (k : Text) → has_key k (stream_keys stream) ≡ true
    → (e : Entry) × (first_of k db ≡ some e)
never_reported db t filter stream opened h k there = cc

abbrev table_laws : StoreLaws numbers table
table_laws = record {
  contents = λ db k. first_of k db;
  batch_rows = λ b. b;
  make_batch_rows = made;
  merged = λ db t b opened h distinct k. first_of-append k db b;
  created = never_created;
  reported = never_reported;
  btree_keeps = λ db t c. refl;
  auto_keeps = λ db t c. refl;
}

abbrev customer : Text → Text → Kna1Row
customer key name = record { kunnr = some key; name1 = some name; ort01 = none; land1 = none }

-- Three rows, the last with the key of the first.
abbrev pub rows : List Kna1Row
rows =
    customer (codes "1") (codes "a")
    ∷ customer (codes "2") (codes "b")
    ∷ customer (codes "1") (codes "c")
    ∷ []

abbrev ones : {A : Type 0} → List A → List ℕ
ones [] = []
ones (x ∷ xs) = 1 ∷ ones xs

abbrev model : Model numbers ℕ
model sentences = ok (1, ones sentences)

imported :
    (execute_ingestion numbers table ℕ ℕ 8 model false 2 [] (ok tt) (ok (map ok rows))).1 ≡ ok tt
unfolding execute_ingestion ingest_connected ingest_opened prepare process_csv_in_batches read_rows
    finish continue_with process_current_batch store_new store_rows insert_batch write_batch
    find_existing_in_db query_existing ids_for_sql select_new has_key key_of text_eq index_ingested
    build_indexes index_vectors create_scalar_index create_vector_index index_counted get_embeddings
    get_embeddings_batch embed_flat try_new checked_mul checked_add get_range row rows_from
    into_vecs normalize_chunks normalize_vector_slice max_abs_of scaled_norm divide_by_norm
    Option.bind
imported = refl

execute_ingestion-Adds_example :
    Adds numbers table table_laws []
      (map entry_of rows)
      (execute_ingestion numbers table ℕ ℕ 8 model false 2 [] (ok tt) (ok (map ok rows))).0
unfolding prepare
execute_ingestion-Adds_example =
    execute_ingestion-Adds numbers table table_laws ℕ ℕ 8 model false 2 [] rows imported

reimported :
    Succeeds numbers table table_laws ℕ ℕ 8 model 3
      (import numbers table table_laws ℕ ℕ 8 model 2 [] rows)
      rows
unfolding execute_ingestion ingest_connected ingest_opened prepare process_csv_in_batches read_rows
    finish continue_with process_current_batch store_new store_rows insert_batch write_batch
    find_existing_in_db query_existing ids_for_sql select_new has_key key_of text_eq index_ingested
    build_indexes index_vectors create_scalar_index create_vector_index index_counted get_embeddings
    get_embeddings_batch embed_flat try_new checked_mul checked_add get_range row rows_from
    into_vecs normalize_chunks normalize_vector_slice max_abs_of scaled_norm divide_by_norm
    Option.bind
reimported = refl

import-import_same_example :
    first_of (codes "1") (
      import numbers table table_laws ℕ ℕ 8 model 3
        (import numbers table table_laws ℕ ℕ 8 model 2 [] rows)
        rows)
    ≡ first_of (codes "1") (import numbers table table_laws ℕ ℕ 8 model 2 [] rows)
import-import_same_example =
    import-import_same numbers table table_laws ℕ ℕ 8 model 2 3 [] rows imported reimported
      (codes "1")
