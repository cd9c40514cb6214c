-- ===== src/Pipelines/Firewall.antt =====
-- src/pipelines/query/firewall.rs: parsing of a model's output, and the verification of its quotes.
-- `serde_json::from_str` is the parameter `from_str`.
pub mod Cleaning
pub mod Verification
use rust_enterprise_query_en.Common.{
  Bool, true, false, List, [], ◌∷◌, Option, none, some, Result, ok, err, ◌>>=◌, map_err,
  if◌then◌else◌,
}
use rust_enterprise_query_en.Common.Text.{
  Text, codes, trim, strip_prefix, strip_suffix, text_eq, contains,
}
use rust_enterprise_query_en.Pipelines.Types.{SemanticResponse}
use mathlib.Core.Option

pub data FirewallError {ℓ} (E : Type ℓ) : Type ℓ where
  invalid_json : (error : E) (cleaned : Text) → FirewallError E
  unknown_chunk : (id : Text) → FirewallError E
  hallucination : (quote : Text) → FirewallError E

-- Three backticks, `json`, and a newline.
abbrev pub fence : Text
fence = 96 ∷ 96 ∷ 96 ∷ []

abbrev pub json_fence : Text
json_fence = 96 ∷ 96 ∷ 96 ∷ 106 ∷ 115 ∷ 111 ∷ 110 ∷ []

abbrev pub fence_line : Text
fence_line = 96 ∷ 96 ∷ 96 ∷ 10 ∷ []

abbrev pub json_fence_line : Text
json_fence_line = 96 ∷ 96 ∷ 96 ∷ 106 ∷ 115 ∷ 111 ∷ 110 ∷ 10 ∷ []

-- `if let Some(stripped) = s.strip_prefix(p) { s = stripped } else …`
unfoldable pub strip_first : List Text → Text → Text
strip_first [] s = s
strip_first (p ∷ ps) s =
    let rest = strip_first ps s in
    elim (strip_prefix p s) [ some stripped ↦ stripped | none ↦ rest ]

unfoldable pub open_fences : Text → Text
open_fences s = strip_first (json_fence_line ∷ json_fence ∷ fence_line ∷ fence ∷ []) s

unfoldable pub close_fence : Text → Text
close_fence s = Option.get_or (strip_suffix fence s) s

-- The text that is handed to the JSON parser.
unfoldable pub clean_json : Text → Text
clean_json raw_output = trim (close_fence (trim (open_fences (trim raw_output))))

unfoldable pub parse_llm_json {ℓ} :
    {E : Type ℓ} {A : Type 0} → (Text → Result E A) → Text → Result (FirewallError E) A
parse_llm_json from_str raw_output =
    map_err (λ e. invalid_json e (clean_json raw_output)) (from_str (clean_json raw_output))

-- `iter().find(|(id, _)| id == wanted)`, and the text of that chunk.
unfoldable pub find_chunk : Text → List (Text × Text) → Option Text
find_chunk wanted [] = none
find_chunk wanted ((id, text) ∷ chunks) =
    if text_eq id wanted then some text else find_chunk wanted chunks

-- The checks on an answer that claims to have been found.
unfoldable pub check_quote {ℓ} :
    {E : Type ℓ} → SemanticResponse → Option Text → Result (FirewallError E) SemanticResponse
check_quote response none = err (unknown_chunk response.source_chunk_id)
check_quote response (some source_text) =
    if contains response.exact_quote source_text
    then ok response
    else err (hallucination response.exact_quote)

unfoldable pub verify_response {ℓ} :
    {E : Type ℓ} → List (Text × Text) → SemanticResponse → Result (FirewallError E) SemanticResponse
verify_response retrieved_chunks response =
    if response.answer_found
    then check_quote response (find_chunk response.source_chunk_id retrieved_chunks)
    else ok response

unfoldable pub verify_and_parse_llm_generation {ℓ} :
    {E : Type ℓ}
    → (Text → Result E SemanticResponse)
    → Text
    → List (Text × Text)
    → Result (FirewallError E) SemanticResponse
verify_and_parse_llm_generation from_str raw_output retrieved_chunks = do
  response ← parse_llm_json from_str raw_output
  verify_response retrieved_chunks response
