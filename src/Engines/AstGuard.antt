-- ===== src/Engines/AstGuard.antt =====
-- src/engines/ast_guard.rs: the SQL firewall. The parser of the crate `sqlparser` is a parameter,
-- with its statements and the test for the constructor `Statement::Query`.
pub mod Laws
use rust_enterprise_query_en.Common.{
  ℕ, ◌<◌, Bool, List, [], ◌∷◌, if◌then◌else◌, ltb, length, Result, ok, err, ◌>>=◌, map_err,
}
use rust_enterprise_query_en.Common.Text.{Text}

pub data GuardError {ℓ} (E : Type ℓ) : Type ℓ where
  parse_failed : E → GuardError E
  no_statements : GuardError E
  multiple_statements : GuardError E
  not_a_query : GuardError E

-- The SQL parser: its errors, its statements, and which of these are queries.
pub record SqlParser : Type 1 where
  pub ParseError : Type 0
  pub Statement : Type 0
  pub is_query : Statement → Bool
  pub parse_sql : Text → Result ParseError (List Statement)

module _ (parser : SqlParser) where
  open parser use {ParseError, Statement, is_query, parse_sql}

  -- The tests on the parsed statements.
  unfoldable pub check_statements : List Statement → Result (GuardError ParseError) (Unit {0})
  check_statements [] = err no_statements
  check_statements (s ∷ []) = if is_query s then ok tt else err not_a_query
  check_statements (_ ∷ _ ∷ _) = err multiple_statements

  unfoldable pub validate_sql_is_safe : Text → Result (GuardError ParseError) (Unit {0})
  validate_sql_is_safe query = do ast ← map_err parse_failed (parse_sql query); check_statements ast
