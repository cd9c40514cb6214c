-- ===== src/Tests/SqlTests.antt =====
-- The guarded execution of SQL at concrete inputs.
use rust_enterprise_query_en.Common.{
  ◌<◌, ◌^◌, ℕ, ◌≤◌, true, List, [], ◌∷◌, some, none, ok, err, ◌≡◌, refl, ◌↔◌, ◌⊎◌, arith,
}
use rust_enterprise_query_en.Common.Text.{
  trim, trim_start, trim_end, cons_trimmed, is_whitespace, is_empty, byte_len, len_utf8, Text,
  codes, split_on, push_char, starts_with, strip_prefix,
}
use rust_enterprise_query_en.Engines.AstGuard.{GuardError, check_statements, validate_sql_is_safe}
use rust_enterprise_query_en.Engines.AstGuard.Laws.{validate_sql_is_safe_iff}
use rust_enterprise_query_en.Engines.Sql.{
  unsafe, max_rows, collect_limited, run_planned, run_validated, execute_sql_query,
}
use rust_enterprise_query_en.Engines.Sql.Laws.{
  IsSingleQuery, total_rows, execute_sql_query_guarded, execute_sql_query_rows,
}
use rust_enterprise_query_en.Gateway.Requests.{grpc_guards}
use rust_enterprise_query_en.Gateway.Grpc.{
  SqlQueryResponse, execute_sql, execute_accepted, reply, sql_response, sum_rows,
}
use rust_enterprise_query_en.Gateway.Grpc.Laws.{Reports, execute_sql-Reports}
use rust_enterprise_query_en.Gateway.Wire.{sql_query_handler}
use rust_enterprise_query_en.Gateway.Agreement.{Agree, sql_doors-Agree}
use rust_enterprise_query_en.Tests.Concrete.{parser, engine}

abbrev query : Text
query = codes "SELECT 1"

validate_sql_is_safe_iff_example :
    (validate_sql_is_safe parser query ≡ ok tt)
    ↔ ((s : parser.Statement) × (parser.parse_sql query ≡ ok (s ∷ [])) × (parser.is_query s ≡ true))
validate_sql_is_safe_iff_example = validate_sql_is_safe_iff parser query

execute_sql_query_guarded_example :
    (IsSingleQuery parser engine query
      × (execute_sql_query parser engine none 0 query
          ≡ run_planned parser engine none (engine.sql 0 query)))
    ⊎ ((e : GuardError ℕ) × (validate_sql_is_safe parser query ≡ err e)
        × (execute_sql_query parser engine none 0 query ≡ (0, err (unsafe e))))
execute_sql_query_guarded_example = execute_sql_query_guarded parser engine none 0 query

limited_rows :
    (df limited skip n : ℕ) (bs : List ℕ)
    → engine.limit df skip (some n) ≡ ok limited
    → engine.collect limited ≡ ok bs
    → total_rows parser engine bs ≤ n
unfolding total_rows
limited_rows df limited skip n bs h k = ground arith

executed : (execute_sql_query parser engine (some 5) 0 query).1 ≡ ok (5 ∷ [])
unfolding execute_sql_query run_validated run_planned collect_limited max_rows validate_sql_is_safe
    check_statements split_on push_char starts_with strip_prefix
executed = refl

execute_sql_query_rows_example : total_rows parser engine (5 ∷ []) ≤ max_rows (some 5)
execute_sql_query_rows_example =
    execute_sql_query_rows parser engine limited_rows (some 5) 0 query executed

abbrev answered : SqlQueryResponse
answered = record { json_lines = codes "{}"; row_count = 5 }

answered_sql : (execute_sql parser engine (some 5) 100 0 query).1 ≡ ok answered
unfolding execute_sql execute_accepted reply sql_response sum_rows grpc_guards trim trim_start
    trim_end cons_trimmed is_whitespace is_empty byte_len len_utf8 execute_sql_query run_validated
    run_planned collect_limited max_rows validate_sql_is_safe check_statements split_on push_char
    starts_with strip_prefix
answered_sql = refl

small_limit : max_rows (some 5) < 2 ^ 32
unfolding max_rows
small_limit = omega arith

execute_sql-Reports_example : Reports parser engine (some 5) 0 query answered
execute_sql-Reports_example =
    execute_sql-Reports parser engine limited_rows (some 5) 100 0 query small_limit answered_sql

sql_doors-Agree_example :
    Agree parser engine
      (sql_query_handler parser engine (some 5) 100 0 query)
      (execute_sql parser engine (some 5) 100 0 query)
sql_doors-Agree_example = sql_doors-Agree parser engine (some 5) 100 0 query
