-- ===== src/Gateway/Grpc/Laws.antt =====
-- What a reply of `execute_sql` of src/gateway/grpc/service.rs reports.
use Prim.Native.Nat.{◌%◌}
use mathlib.Core.Path.{subst}
use rust_enterprise_query_en.Common.{
  ℕ, ◌+◌, ◌≤◌, ◌<◌, ◌^◌, List, [], ◌∷◌, Option, some, ok, ◌≡◌, refl, ap, arith, Result-cases, inl,
  inr,
}
use rust_enterprise_query_en.Common.Text.{Text, codes, trim}
use rust_enterprise_query_en.Engines.AstGuard.{SqlParser}
use rust_enterprise_query_en.Engines.Sql.{SqlEngine, max_rows, execute_sql_query}
use rust_enterprise_query_en.Engines.Sql.Laws.{total_rows, execute_sql_query_rows}
use rust_enterprise_query_en.Gateway.Requests.{grpc_guards}
use rust_enterprise_query_en.Gateway.Grpc.{
  SqlQueryResponse, sum_rows, sql_response, reply, execute_accepted, execute_sql,
}

-- An accepted query is the trimmed one.
grpc_guards-trim :
    (query name : Text) (max_chars : ℕ) {out : Text}
    → grpc_guards query name max_chars ≡ ok out
    → out ≡ trim query
unfolding grpc_guards
grpc_guards-trim query name max_chars h = ground arith

low_bits : (n : ℕ) → n < 2 ^ 32 → n % 2 ^ 32 ≡ n
low_bits n h = omega arith

module _ (parser : SqlParser) (engine : SqlEngine) where
  open engine use {State, DataFrame, RecordBatch, limit, collect}

  sum_rows-total_rows :
      (bs : List RecordBatch) → sum_rows parser engine bs ≡ total_rows parser engine bs
  unfolding sum_rows total_rows
  sum_rows-total_rows [] = refl
  sum_rows-total_rows (b ∷ bs) = ap (λ n. engine.num_rows b + n) (sum_rows-total_rows bs)

  -- What a reply reports: the batches that the execution of the trimmed query has collected, all of
  -- their rows counted and all of them written, and no more rows than are allowed.
  pub record Reports (setting : Option ℕ) (s : State) (query : Text) (response : SqlQueryResponse)
      : Type 0 where
    pub batches : List RecordBatch
    pub executed : (execute_sql_query parser engine setting s (trim query)).1 ≡ ok batches
    pub counted : response.row_count ≡ total_rows parser engine batches
    pub bounded : response.row_count ≤ max_rows setting
    pub written : engine.write_json_lines batches ≡ ok response.json_lines

  reply-Reports :
      (setting : Option ℕ) (s after : State) (query : Text) (bs : List RecordBatch)
      {response : SqlQueryResponse}
      → (execute_sql_query parser engine setting s (trim query)).1 ≡ ok bs
      → max_rows setting < 2 ^ 32
      → total_rows parser engine bs ≤ max_rows setting
      → (reply parser engine (after, ok bs)).1 ≡ ok response
      → Reports setting s query response
  unfolding reply sql_response
  reply-Reports setting s after query bs {response} ran small few h =
      elim (Result-cases (engine.write_json_lines bs)) [
        | inr (e, failed) ↦ absurd (ground arith)
        | inl (lines, wrote) ↦
            let e : sql_response parser engine bs lines ≡ response = ground arith in
            let exact : sum_rows parser engine bs % 2 ^ 32 ≡ total_rows parser engine bs =
              rw (sum_rows-total_rows bs) (low_bits _ (omega arith)) in
            subst (Reports setting s query) e (record {
              batches = bs;
              executed = ran;
              counted = exact;
              bounded = rw exact few;
              written = wrote;
            })
      ]

  -- If a limited plan yields no more rows than its limit and the limit fits in 32 bits, then a reply
  -- means that the trimmed query was executed from the state given, and it holds the lines of all
  -- batches that the execution has collected, with their exact number of rows, within the limit.
  pub execute_sql-Reports :
      ((df limited : DataFrame) (skip n : ℕ) (bs : List RecordBatch)
        → limit df skip (some n) ≡ ok limited
        → collect limited ≡ ok bs
        → total_rows parser engine bs ≤ n)
      → (setting : Option ℕ) (max_chars : ℕ) (s : State) (query : Text)
        {response : SqlQueryResponse}
      → max_rows setting < 2 ^ 32
      → (execute_sql parser engine setting max_chars s query).1 ≡ ok response
      → Reports setting s query response
  unfolding execute_sql execute_accepted reply
  execute_sql-Reports law setting max_chars s query {response} small h =
      elim (Result-cases (grpc_guards query (codes "SQL query") max_chars)) [
        | inr (e, refused) ↦ absurd (ground arith)
        | inl (accepted_text, accepted) ↦
            let same : accepted_text ≡ trim query =
              grpc_guards-trim query (codes "SQL query") max_chars accepted in
            let out = execute_sql_query parser engine setting s (trim query) in
            let replied : (reply parser engine out).1 ≡ ok response = rw (accepted, same) at h in
            elim (Result-cases out.1) [
              | inl (bs, got) ↦
                  reply-Reports setting s out.0 query bs got small
                    (execute_sql_query_rows parser engine law setting s (trim query) got)
                    (rw got at replied)
              | inr (e, failed) ↦ absurd (ground arith)
            ]
      ]
