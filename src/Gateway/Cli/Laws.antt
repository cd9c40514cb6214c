-- ===== src/Gateway/Cli/Laws.antt =====
-- What the queries of a call are.
use rust_enterprise_query_en.Common.{
  Bool, true, false, List, [], ◌∷◌, Option, none, some, Result, ok, err, ◌≡◌, arith, All,
  Bool-cases, inl, inr,
}
use rust_enterprise_query_en.Common.Text.{Text, trim, is_empty}
use rust_enterprise_query_en.Common.Text.Trim.{IsTrimmed, trim-cases}
use rust_enterprise_query_en.Gateway.Cli.{CliError, resolve_lines, resolve_query_inputs}

-- A query is text without outer blanks, and not empty; an error is one of the stream's.
abbrev pub IsQuery {ℓ} : {E : Type ℓ} → Result (CliError E) Text → Type 0
IsQuery (ok query) = IsTrimmed query
IsQuery (err e) = Unit

resolve_line-IsTrimmed : (s : Text) → is_empty (trim s) ≡ false → IsTrimmed (trim s)
unfolding is_empty
resolve_line-IsTrimmed s h = elim (trim-cases s) [ inl e ↦ absurd (ground arith) | inr t ↦ t ]

resolve_lines-IsQuery {ℓ} :
    {E : Type ℓ} (lines : List (Result E Text)) → All IsQuery (resolve_lines lines)
unfolding resolve_lines
resolve_lines-IsQuery [] = tt
resolve_lines-IsQuery (err e ∷ rest) = (tt, resolve_lines-IsQuery rest)
resolve_lines-IsQuery (ok line ∷ rest) = elim (Bool-cases (is_empty (trim line))) [
  | inl blank ↦ rw blank (resolve_lines-IsQuery rest)
  | inr text ↦ rw text (resolve_line-IsTrimmed line text, resolve_lines-IsQuery rest)
]

-- Every query that a call resolves to is trimmed and not empty, wherever it comes from.
pub resolve_query_inputs-IsQuery {ℓ} :
    {E : Type ℓ} (arg : Option Text) (is_terminal : Bool) (lines : List (Result E Text))
    {queries : List (Result (CliError E) Text)}
    → resolve_query_inputs arg is_terminal lines ≡ ok queries
    → All IsQuery queries
unfolding resolve_query_inputs
resolve_query_inputs-IsQuery (some q) is_terminal lines {queries} h =
    elim (Bool-cases (is_empty (trim q))) [
      | inl blank ↦ absurd (ground arith)
      | inr text ↦
          let e : ok (trim q) ∷ [] ≡ queries = ground arith in
          rw (← e) (resolve_line-IsTrimmed q text, tt)
    ]
resolve_query_inputs-IsQuery none true lines h = cc
resolve_query_inputs-IsQuery {E} none false lines {queries} h =
    let e : resolve_lines {E = E} lines ≡ queries = ground arith in
    rw (← e) (resolve_lines-IsQuery lines)
