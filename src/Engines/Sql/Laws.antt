-- ===== src/Engines/Sql/Laws.antt =====
-- Nothing unsafe reaches the SQL engine, and the rows are bounded.
use rust_enterprise_query_en.Common.{
  ℕ, ◌+◌, ◌≤◌, true, List, [], ◌∷◌, Option, some, ok, err, map_err, ◌≡◌, ◌⊎◌, inl, inr, arith,
  Result-cases, >>=-eq-ok,
}
use rust_enterprise_query_en.Common.Text.{Text}
use rust_enterprise_query_en.Engines.AstGuard.{SqlParser, GuardError, validate_sql_is_safe}
use rust_enterprise_query_en.Engines.AstGuard.Laws.{validate_sql_is_safe_iff}
use rust_enterprise_query_en.Engines.Sql.{
  SqlEngine, unsafe, engine_failed, max_rows, collect_limited, run_planned, run_validated,
  execute_sql_query,
}

module _ (parser : SqlParser) (engine : SqlEngine) where
  open engine use {State, DataFrame, RecordBatch, sql, limit, collect, num_rows}

  -- The single query that a text stands for.
  abbrev pub IsSingleQuery : Text → Type 0
  IsSingleQuery query =
      (s : parser.Statement) × (parser.parse_sql query ≡ ok (s ∷ [])) × (parser.is_query s ≡ true)

  -- The states of the engine that texts lead to which parse as a single query.
  pub data Reached (from : State) : State → Type 0 where
    nothing : Reached from from
    statement :
        {s : State} (query : Text)
        → Reached from s
        → IsSingleQuery query
        → Reached from (sql s query).0

  -- Either the text is a single query, and only then the engine is called on it; or the call is
  -- refused and the engine's state is the one before.
  pub execute_sql_query_guarded :
      (setting : Option ℕ) (s : State) (query : Text)
      → (IsSingleQuery query
          × (execute_sql_query parser engine setting s query
              ≡ run_planned parser engine setting (sql s query)))
        ⊎ ((e : GuardError parser.ParseError) × (validate_sql_is_safe parser query ≡ err e)
            × (execute_sql_query parser engine setting s query ≡ (s, err (unsafe e))))
  unfolding execute_sql_query run_validated
  execute_sql_query_guarded setting s query =
      elim (Result-cases (validate_sql_is_safe parser query)) [
        | inl (_, passed) ↦ inl ((validate_sql_is_safe_iff parser query).0 passed, rw passed)
        | inr (e, refused) ↦ inr (e, refused, rw refused)
      ]

  unfoldable pub total_rows : List RecordBatch → ℕ
  total_rows [] = 0
  total_rows (b ∷ bs) = num_rows b + total_rows bs

  collect_limited_rows :
      ((df limited : DataFrame) (skip n : ℕ) (bs : List RecordBatch)
        → limit df skip (some n) ≡ ok limited
        → collect limited ≡ ok bs
        → total_rows bs ≤ n)
      → (setting : Option ℕ) (df : DataFrame) {bs : List RecordBatch}
      → collect_limited parser engine setting df ≡ ok bs
      → total_rows bs ≤ max_rows setting
  unfolding collect_limited
  collect_limited_rows law setting df h =
      elim (Result-cases (limit df 0 (some (max_rows setting)))) [
        | inl (limited, cut) ↦ elim (Result-cases (collect limited)) [
          | inl (bs, got) ↦ ground (arith, law df limited 0 (max_rows setting) bs cut got)
          | inr (e, failed) ↦ absurd (ground arith)
        ]
        | inr (e, failed) ↦ absurd (ground arith)
      ]

  -- If a limited plan yields no more rows than its limit, an execution that succeeds returns at
  -- most `MAX_SQL_ROWS` rows, 10,000 where that is not set to a number.
  pub execute_sql_query_rows :
      ((df limited : DataFrame) (skip n : ℕ) (bs : List RecordBatch)
        → limit df skip (some n) ≡ ok limited
        → collect limited ≡ ok bs
        → total_rows bs ≤ n)
      → (setting : Option ℕ) (s : State) (query : Text) {bs : List RecordBatch}
      → (execute_sql_query parser engine setting s query).1 ≡ ok bs
      → total_rows bs ≤ max_rows setting
  unfolding run_planned
  execute_sql_query_rows law setting s query {bs} h =
      elim (execute_sql_query_guarded setting s query) [
        | inl (_, called) ↦
            let got : (run_planned parser engine setting (sql s query)).1 ≡ ok bs =
              rw called at h in
            let (df, _, limited) =
              >>=-eq-ok (map_err engine_failed (sql s query).1)
                (collect_limited parser engine setting) got in
            collect_limited_rows law setting df limited
        | inr (e, _, refused) ↦ absurd (ground arith)
      ]
