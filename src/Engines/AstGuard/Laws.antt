-- ===== src/Engines/AstGuard/Laws.antt =====
-- What the firewall lets through.
use rust_enterprise_query_en.Common.{
  true, List, [], ◌∷◌, ◌≡◌, refl, ◌↔◌, ok, arith, Result-cases, inl, inr,
}
use rust_enterprise_query_en.Common.Text.{Text}
use rust_enterprise_query_en.Engines.AstGuard.{SqlParser, check_statements, validate_sql_is_safe}

module _ (parser : SqlParser) where
  open parser use {Statement, is_query, parse_sql}

  check_statements_sound :
      (ast : List Statement)
      → check_statements parser ast ≡ ok tt
      → (s : Statement) × (ast ≡ s ∷ []) × (is_query s ≡ true)
  unfolding check_statements
  check_statements_sound [] h = cc
  check_statements_sound (s ∷ []) h = (s, refl, ground arith)
  check_statements_sound (s ∷ t ∷ ast) h = cc

  -- A text passes exactly when it parses as one statement and that statement is a query.
  pub validate_sql_is_safe_iff :
      (query : Text)
      → (validate_sql_is_safe parser query ≡ ok tt)
        ↔ ((s : Statement) × (parse_sql query ≡ ok (s ∷ [])) × (is_query s ≡ true))
  unfolding validate_sql_is_safe check_statements
  validate_sql_is_safe_iff query = (
    λ h. elim (Result-cases (parse_sql query)) [
      | inl (ast, parsed) ↦
          let (s, one, q) = check_statements_sound ast (ground arith) in (s, rw (← one) parsed, q)
      | inr (e, failed) ↦ absurd (ground arith)
    ],
    λ (s, parsed, q). rw (parsed, q),
  )
