-- ===== src/Pipelines/Ingest/Contents.antt =====
-- The abstract view of the import: a store is a function from keys to what is stored under them. The
-- laws are the documented behaviour of the store's operations.
use rust_enterprise_query_en.Common.{
  true, false, ◌||◌, List, [], ◌∷◌, ◌++◌, map, Option, none, some, Result, ok, if◌then◌else◌, ◌≡◌,
  refl, arith, Bool-cases, inl, inr,
}
use mathlib.Core.List.{zip}
use mathlib.Core.Path.{subst, sym}
use rust_enterprise_query_en.Common.Text.{Text, codes, text_eq}
use rust_enterprise_query_en.Common.Text.Laws.{text_eq_iff, text_eq_refl}
use rust_enterprise_query_en.Common.Floats.{Floats}
use rust_enterprise_query_en.Pipelines.Types.{Kna1Row}
use rust_enterprise_query_en.Pipelines.Ingest.{
  Record, IngestStore, has_key, key_of, document_of, record_of, select_new, stream_keys,
}
use rust_enterprise_query_en.Pipelines.Ingest.Dedup.{AllNew}

-- What is stored for a row: its record and its sentence.
abbrev pub Entry : Type 0
Entry = Record × Text

abbrev pub entry_of : Kna1Row → Entry
entry_of row = (record_of row, document_of row)

-- The first entry with the key.
unfoldable pub first_of : Text → List Entry → Option Entry
first_of k [] = none
first_of k (e ∷ es) = if text_eq e.0.2 k then some e else first_of k es

-- The first of two, if it is there.
abbrev pub or_else {ℓ} : {A : Type ℓ} → Option A → Option A → Option A
or_else none b = b
or_else (some a) b = some a

pub or_else-none {ℓ} : {A : Type ℓ} (o : Option A) → o ≡ or_else o none
or_else-none none = refl
or_else-none (some a) = refl

pub or_else_assoc {ℓ} :
    {A : Type ℓ} (o p q : Option A) → or_else (or_else o p) q ≡ or_else o (or_else p q)
or_else_assoc none p q = refl
or_else_assoc (some a) p q = refl

abbrev pub DistinctKeys : List Entry → Type 0
DistinctKeys [] = Unit
DistinctKeys (e ∷ es) = (first_of e.0.2 es ≡ none) × DistinctKeys es

abbrev pub customers : Text
customers = codes "customers"

module _ (fl : Floats) (store : IngestStore fl.F) where
  open store use {Db, Table, Batch, StoreError}

  -- What is stored under each key, and what the operations do to it. Nothing is said of a batch in
  -- which a key stands twice, nor of a query that leaves out stored keys.
  pub record StoreLaws : Type 0 where
    pub contents : Db → Text → Option Entry
    pub batch_rows : Batch → List Entry
    pub make_batch_rows :
        (records : List Record) (documents : List Text) (vectors : List (List fl.F)) (b : Batch)
        → store.make_batch records documents vectors ≡ ok b
        → batch_rows b ≡ zip records documents
    -- With `when_not_matched_insert_all` alone, a row whose key is stored is dropped.
    pub merged :
        (db : Db) (t : Table) (b : Batch)
        → store.open_table db customers ≡ ok t
        → (store.merge_insert db t (codes "kunnr") b).1 ≡ ok tt
        → DistinctKeys (batch_rows b)
        → (k : Text)
        → contents (store.merge_insert db t (codes "kunnr") b).0 k
          ≡ or_else (contents db k) (first_of k (batch_rows b))
    -- A table that exists is not created again.
    pub created :
        (db : Db) (b : Batch)
        → (store.create_table db customers b).1 ≡ ok tt
        → DistinctKeys (batch_rows b)
        → (k : Text)
        → (contents db k ≡ none)
          × (contents (store.create_table db customers b).0 k ≡ first_of k (batch_rows b))
    -- A query reports stored keys only.
    pub reported :
        (db : Db) (t : Table) (filter : Text)
        (stream : List (Result StoreError (Option (List Text))))
        → store.open_table db customers ≡ ok t
        → store.query_kunnr t filter ≡ ok stream
        → (k : Text) → has_key k (stream_keys stream) ≡ true
        → (e : Entry) × (contents db k ≡ some e)
    pub btree_keeps :
        (db : Db) (t : Table) (c : Text)
        → contents (store.create_btree_index db t c).0 ≡ contents db
    pub auto_keeps :
        (db : Db) (t : Table) (c : Text) → contents (store.create_auto_index db t c).0 ≡ contents db

pub first_of-append :
    (k : Text) (es fs : List Entry)
    → first_of k (es ++ fs) ≡ or_else (first_of k es) (first_of k fs)
unfolding first_of
first_of-append k [] fs = refl
first_of-append k (e ∷ es) fs = ground (arith, first_of-append k es fs)

pub zip-map :
    (rows : List Kna1Row) → zip (map record_of rows) (map document_of rows) ≡ map entry_of rows
unfolding zip
zip-map [] = refl
zip-map (row ∷ rows) = rw (zip-map rows)

-- The selection loses no first row of a key that is neither stored nor seen.
pub first_of-select_new :
    (existing seen : List Text) (rows : List Kna1Row) (k : Text)
    → has_key k existing ≡ false
    → has_key k seen ≡ false
    → first_of k (map entry_of (select_new existing seen rows)) ≡ first_of k (map entry_of rows)
unfolding first_of select_new has_key record_of
first_of-select_new existing seen [] k h j = refl
first_of-select_new existing seen (row ∷ rows) k h j = elim (Bool-cases (text_eq (key_of row) k)) [
  | inl own ↦
      let e = (text_eq_iff (key_of row) k).0 own in
      let u = subst (λ x. has_key x seen ≡ false) (sym e) j in
      let v = subst (λ x. has_key x existing ≡ false) (sym e) h in rw (u, v, own) refl
  | inr other ↦
      let ih = first_of-select_new existing (key_of row ∷ seen) rows k h (rw (other, j) refl) in
      elim (Bool-cases (has_key (key_of row) seen || has_key (key_of row) existing)) [
        | inl known ↦ rw (known, other) ih
        | inr fresh ↦ rw (fresh, other) ih
      ]
]

first_of-AllNew :
    (k : Text) (known : List Text) (rows : List Kna1Row)
    → has_key k known ≡ true
    → AllNew known rows
    → first_of k (map entry_of rows) ≡ none
unfolding first_of has_key record_of
first_of-AllNew k known [] h new = refl
first_of-AllNew k known (row ∷ rows) h (unknown, new) = elim (Bool-cases (text_eq (key_of row) k)) [
  | inl own ↦ let e = (text_eq_iff (key_of row) k).0 own in let u = rw e at unknown in cc
  | inr other ↦ rw other (first_of-AllNew k (key_of row ∷ known) rows (rw (other, h) refl) new)
]

pub AllNew-DistinctKeys :
    (known : List Text) (rows : List Kna1Row) → AllNew known rows → DistinctKeys (map entry_of rows)
unfolding record_of has_key
AllNew-DistinctKeys known [] new = tt
AllNew-DistinctKeys known (row ∷ rows) (unknown, new) = (
  first_of-AllNew (key_of row) (key_of row ∷ known) rows (rw (text_eq_refl (key_of row)) refl) new,
  AllNew-DistinctKeys (key_of row ∷ known) rows new,
)
