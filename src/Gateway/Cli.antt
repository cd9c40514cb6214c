-- ===== src/Gateway/Cli.antt =====
-- `resolve_query_inputs` of src/gateway/cli.rs: the queries of a call, from its argument or from the
-- lines of the standard input. A read of a line gives the line or an error of the stream.
pub mod Laws
use rust_enterprise_query_en.Common.{
  Bool, List, [], ◌∷◌, Option, none, some, Result, ok, err, if◌then◌else◌,
}
use rust_enterprise_query_en.Common.Text.{Text, trim, is_empty}

pub data CliError {ℓ} (E : Type ℓ) : Type ℓ where
  empty_query : CliError E
  no_query : CliError E
  stdin_failed : E → CliError E

-- The `filter_map` over the lines.
unfoldable pub resolve_lines {ℓ} :
    {E : Type ℓ} → List (Result E Text) → List (Result (CliError E) Text)
resolve_lines [] = []
resolve_lines (err e ∷ rest) = err (stdin_failed e) ∷ resolve_lines rest
resolve_lines (ok line ∷ rest) =
    if is_empty (trim line) then resolve_lines rest else ok (trim line) ∷ resolve_lines rest

unfoldable pub resolve_query_inputs {ℓ} :
    {E : Type ℓ}
    → Option Text
    → Bool
    → List (Result E Text)
    → Result (CliError E) (List (Result (CliError E) Text))
resolve_query_inputs (some q) is_terminal lines =
    if is_empty (trim q) then err empty_query else ok (ok (trim q) ∷ [])
resolve_query_inputs none is_terminal lines =
    if is_terminal then err no_query else ok (resolve_lines lines)
