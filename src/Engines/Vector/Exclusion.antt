-- ===== src/Engines/Vector/Exclusion.antt =====
-- What a filter `NOT …` does to the result of the hybrid search.
use rust_enterprise_query_en.Common.{
  Bool, false, not, List, [], ◌∷◌, ◌++◌, none, some, ok, ◌>>=◌, ◌≡◌, refl, arith, All, Bool-cases,
  Option-cases, inl, inr, Result-cases, >>=-eq-ok, >>=-eq-ok,
}
use rust_enterprise_query_en.Common.Text.{Text, text_eq, codes, contains, strip_prefix}
use rust_enterprise_query_en.Common.Text.Laws.{strip_prefix-append}
use rust_enterprise_query_en.Common.Floats.{Floats}
use rust_enterprise_query_en.Common.Maps
use rust_enterprise_query_en.Common.Maps.{AllValues, IsMap, IsFresh}
use rust_enterprise_query_en.Engines.Vector.{
  Row, VectorStore, Chunks, not_prefix, exclude, apply_filter, apply_filters, take_chunks,
  rank_chunks, execute_hybrid_search_on_connection, extract_chunks_from_stream,
}

-- The chunk does not contain the term.
abbrev pub Lacks : Text → Text → Type 0
Lacks term chunk = contains term chunk ≡ false

AllValues-retain :
    (term : Text) (m : Chunks) → AllValues (Lacks term) (Maps.retain (λ v. not (contains term v)) m)
unfolding Maps.retain
AllValues-retain term [] = tt
AllValues-retain term ((j, v) ∷ m) = elim (Bool-cases (contains term v)) [
  | inl has ↦ rw has (AllValues-retain term m)
  | inr lacks ↦ rw lacks (lacks, AllValues-retain term m)
]

AllValues-lookup :
    (P : Text → Type 0) (k v : Text) (m : Chunks) → AllValues P m → Maps.lookup k m ≡ some v → P v
unfolding Maps.lookup
AllValues-lookup P k v [] h e = cc
AllValues-lookup P k v ((j, w) ∷ m) (here, h) e = elim (Bool-cases (text_eq j k)) [
  | inl same ↦ let p : w ≡ v = ground arith in rw p at here
  | inr other ↦ AllValues-lookup P k v m h (rw other at e)
]

AllValues-remove :
    (P : Text → Type 0) (k : Text) (m : Chunks) → AllValues P m → AllValues P (Maps.remove k m)
unfolding Maps.remove
AllValues-remove P k [] h = tt
AllValues-remove P k ((j, w) ∷ m) (here, h) = elim (Bool-cases (text_eq j k)) [
  | inl same ↦ rw same h
  | inr other ↦ rw other (here, AllValues-remove P k m h)
]

AllValues-retain_keep :
    (P : Text → Type 0) (test : Text → Bool) (m : Chunks)
    → AllValues P m
    → AllValues P (Maps.retain test m)
unfolding Maps.retain
AllValues-retain_keep P test [] h = tt
AllValues-retain_keep P test ((j, v) ∷ m) (here, h) = elim (Bool-cases (test v)) [
  | inl stays ↦ rw stays (here, AllValues-retain_keep P test m h)
  | inr goes ↦ rw goes (AllValues-retain_keep P test m h)
]

module _ {ℓ} {S : Type ℓ} where
  take_chunks_missing :
      (id : Text) (s : S) (ranked : List (Text × S)) (m : Chunks)
      → Maps.lookup id m ≡ none
      → take_chunks ((id, s) ∷ ranked) m ≡ take_chunks ranked m
  unfolding take_chunks
  take_chunks_missing id s ranked m h = rw (h, take_chunks)

  take_chunks_found :
      (id : Text) (s : S) (ranked : List (Text × S)) (m : Chunks) (chunk : Text)
      → Maps.lookup id m ≡ some chunk
      → take_chunks ((id, s) ∷ ranked) m ≡ (id, chunk) ∷ take_chunks ranked (Maps.remove id m)
  unfolding take_chunks
  take_chunks_found id s ranked m chunk h = rw (h, take_chunks)

  pub take_chunks-AllValues :
      (P : Text → Type 0) (ranked : List (Text × S)) (m : Chunks)
      → AllValues P m
      → All (λ c. P c.1) (take_chunks ranked m)
  take_chunks-AllValues P [] m h = unfold take_chunks in tt
  take_chunks-AllValues P ((id, s) ∷ ranked) m h = elim (Option-cases (Maps.lookup id m)) [
    | inl missing ↦
        rw (take_chunks_missing id s ranked m missing) (take_chunks-AllValues P ranked m h)
    | inr (chunk, found) ↦ rw (take_chunks_found id s ranked m chunk found) (
      AllValues-lookup P id chunk m h found,
      take_chunks-AllValues P ranked (Maps.remove id m) (AllValues-remove P id m h),
    )
  ]

-- A filter that excludes.
abbrev pub IsNot : Text → Type 0
IsNot filter = (term : Text) × (strip_prefix not_prefix filter ≡ some term)

module _ (fl : Floats) (store : VectorStore fl.F) (chunk_json : Row → Text) where
  open store use {Table, Connection}

  apply_filters-append :
      (table : Table) (fs gs : List Text) (found : Chunks × List Text)
      → apply_filters fl store chunk_json table (fs ++ gs) found ≡ (
          apply_filters fl store chunk_json table fs found
          >>= apply_filters fl store chunk_json table gs)
  unfolding apply_filters
  apply_filters-append table [] gs found = refl
  apply_filters-append table (f ∷ fs) gs found =
      elim (Result-cases (apply_filter fl store chunk_json table f found)) [
        | inl (next, done) ↦ rw done (apply_filters-append table fs gs next)
        | inr (e, failed) ↦ rw failed
      ]

  apply_filter-not :
      (table : Table) (filter term : Text) (found : Chunks × List Text)
      → strip_prefix not_prefix filter ≡ some term
      → apply_filter fl store chunk_json table filter found
        ≡ ok (Maps.retain (λ v. not (contains term v)) found.0, found.1)
  unfolding apply_filter exclude
  apply_filter-not table filter term found h = rw (h, apply_filter)

  apply_nots-AllValues :
      (P : Text → Type 0) (table : Table) (fs : List Text) (found : Chunks × List Text)
      {out : Chunks × List Text}
      → All IsNot fs
      → AllValues P found.0
      → apply_filters fl store chunk_json table fs found ≡ ok out
      → AllValues P out.0
  unfolding apply_filters
  apply_nots-AllValues P table [] found {out} nots h e =
      let p : found ≡ out = ground arith in rw p at h
  apply_nots-AllValues P table (f ∷ fs) found ((term, n), nots) h e =
      apply_nots-AllValues P table fs _ nots
        (AllValues-retain_keep P (λ v. not (contains term v)) found.0 h)
        (rw (apply_filter-not table f term found n) at e)

  -- The step of a filter `NOT term`, and of those behind it that exclude as well.
  excluded_after :
      (table : Table) (term : Text) (after : List Text) (found : Chunks × List Text)
      {out : Chunks × List Text}
      → All IsNot after
      → apply_filters fl store chunk_json table ((not_prefix ++ term) ∷ after) found ≡ ok out
      → AllValues (Lacks term) out.0
  unfolding apply_filters
  excluded_after table term after found nots e =
      apply_nots-AllValues (Lacks term) table after _ nots (AllValues-retain term found.0) (
        rw
          (apply_filter-not table (not_prefix ++ term) term found
            (strip_prefix-append not_prefix term))
          at e)

  module _ (iterate : List (Text × fl.F) → List (Text × fl.F)) (sixty : fl.F) where
    -- What a search that succeeds has gone through.
    record Searched (db : Connection) (filters : List Text) (result : List (Text × Text))
        : Type 0 where
      table : Table
      chunks : Chunks
      dense : List Text
      found : Chunks × List Text
      filtered : apply_filters fl store chunk_json table filters (chunks, []) ≡ ok found
      ranked : rank_chunks fl store chunk_json iterate sixty dense found ≡ result

    hybrid_search-Searched :
        (query_vector : List fl.F) (db : Connection) (filters : List Text)
        (result : List (Text × Text))
        → execute_hybrid_search_on_connection fl store chunk_json iterate sixty query_vector db
            filters
          ≡ ok result
        → Searched db filters result
    unfolding execute_hybrid_search_on_connection
    hybrid_search-Searched query_vector db filters result e =
        elim (Result-cases (store.open_table db (codes "customers"))) [
          | inr (x, failed) ↦ absurd (ground arith)
          | inl (table, opened) ↦ elim (Result-cases (store.nearest_to table query_vector 20)) [
            | inr (x, failed) ↦ absurd (ground arith)
            | inl (stream, asked) ↦
                elim (Result-cases (extract_chunks_from_stream chunk_json stream ([], []))) [
                  | inr (x, failed) ↦ absurd (ground arith)
                  | inl ((chunks, dense), read) ↦
                      elim (Result-cases
                        (apply_filters fl store chunk_json table filters (chunks, []))) [
                          | inr (x, failed) ↦ absurd (ground arith)
                          | inl (found, filtered) ↦ record {
                            table = table;
                            chunks = chunks;
                            dense = dense;
                            found = found;
                            filtered = filtered;
                            ranked = ground arith;
                          }
                        ]
                ]
          ]
        ]

    -- If all filters behind `NOT term` exclude as well, no chunk that a search returns contains the
    -- term, whatever the filters in front of it have added.
    pub hybrid_search-Lacks :
        (query_vector : List fl.F) (db : Connection) (before : List Text) (term : Text)
        (after : List Text) {result : List (Text × Text)}
        → All IsNot after
        → execute_hybrid_search_on_connection fl store chunk_json iterate sixty query_vector db
            (before ++ ((not_prefix ++ term) ∷ after))
          ≡ ok result
        → All (λ c. Lacks term c.1) result
    unfolding rank_chunks
    hybrid_search-Lacks query_vector db before term after {result} nots e =
        let s = hybrid_search-Searched query_vector db _ result e in
        let split =
          rw (apply_filters-append s.table before ((not_prefix ++ term) ∷ after) (s.chunks, [])) at
            s.filtered in
        let (mid, _, last) =
          >>=-eq-ok (apply_filters fl store chunk_json s.table before (s.chunks, []))
            (apply_filters fl store chunk_json s.table ((not_prefix ++ term) ∷ after)) split in
        rw (← s.ranked) (
          take_chunks-AllValues (Lacks term) _ s.found.0
            (excluded_after s.table term after mid nots last))
