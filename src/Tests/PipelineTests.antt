-- ===== src/Tests/PipelineTests.antt =====
-- The firewall, the client of the model and the import at concrete inputs.
use mathlib.Core.List.{flatten}
use rust_enterprise_query_en.Common.{
  ℕ, ◌+◌, true, false, List, [], ◌∷◌, map, some, none, Result, ok, ◌≡◌, refl, ◌↔◌, arith, All,
  length, ◌<◌, ◌≤◌, ◌⊎◌,
}
use rust_enterprise_query_en.Common.Text.{Text, codes, is_whitespace}
use rust_enterprise_query_en.Common.Text.Trim.{IsBlank}
use rust_enterprise_query_en.Pipelines.Types.{SemanticResponse, Kna1Row}
use rust_enterprise_query_en.Pipelines.Firewall.{clean_json, verify_and_parse_llm_generation}
use rust_enterprise_query_en.Pipelines.Firewall.Verification.{
  FirstChunk, IsGrounded, verify_iff, verify_empty_quote,
}
use rust_enterprise_query_en.Pipelines.Ollama.{prompt_model}
use rust_enterprise_query_en.Pipelines.Ollama.Laws.{Attempted, prompt_model-Attempted}
use rust_enterprise_query_en.Pipelines.Ingest.{has_key, key_of, select_new}
use rust_enterprise_query_en.Pipelines.Ingest.Dedup.{AllNew, keys, select_new-Selects}
use rust_enterprise_query_en.Pipelines.Ingest.Csv.{process_csv_in_batches}
use rust_enterprise_query_en.Pipelines.Ingest.Batching.{pieces, run_batches, process_csv-pieces}
use rust_enterprise_query_en.Tests.Concrete.{client}

abbrev quoted : SemanticResponse
quoted = record {
  answer_found = true;
  answer = codes "yes";
  exact_quote = [];
  source_chunk_id = codes "7";
}

abbrev from_str : Text → Result ℕ SemanticResponse
from_str s = ok quoted

abbrev chunks : List (Text × Text)
chunks = (codes "7", codes "text") ∷ []

space : IsBlank (codes " ")
unfolding is_whitespace
space = (refl, tt)

verify_iff_example :
    (verify_and_parse_llm_generation from_str (codes "{}") chunks ≡ ok quoted)
    ↔ ((from_str (clean_json (codes "{}")) ≡ ok quoted) × IsGrounded chunks quoted)
verify_iff_example = verify_iff from_str (codes "{}") chunks quoted

first : FirstChunk (codes "7") chunks
first = record { before = []; text = codes "text"; after = []; whole = refl; earlier = tt }

verify_empty_quote_example :
    verify_and_parse_llm_generation from_str (codes "{}") chunks ≡ ok quoted
verify_empty_quote_example = verify_empty_quote from_str (codes "{}") chunks quoted refl refl first

prompt_model-Attempted_example : Attempted client (codes "p") 0 (prompt_model client (codes "p") 0)
prompt_model-Attempted_example = prompt_model-Attempted client (codes "p") 0

abbrev customer : Text → Kna1Row
customer key = record { kunnr = some key; name1 = none; ort01 = none; land1 = none }

abbrev batch : List Kna1Row
batch = customer (codes "1") ∷ customer (codes "2") ∷ customer (codes "1") ∷ []

select_new-Selects_example :
    All
      (λ row. has_key (key_of row) (codes "2" ∷ []) ≡ false)
      (select_new (codes "2" ∷ []) [] batch)
    × AllNew [] (select_new (codes "2" ∷ []) [] batch)
    × All
        (λ row.
          (has_key (key_of row) (codes "2" ∷ []) ≡ true)
          ⊎ (has_key (key_of row) (keys (select_new (codes "2" ∷ []) [] batch)) ≡ true))
        batch
select_new-Selects_example = select_new-Selects (codes "2" ∷ []) batch

abbrev some_rows : List ℕ
some_rows = 7 ∷ 8 ∷ 9 ∷ []

abbrev process : ℕ → List ℕ → ℕ × Result ℕ ℕ
process db rows = (db + 1, ok (length rows))

process_csv-pieces_example :
    (process_csv_in_batches process (λ (c : ℕ). c) 2 0 (map ok some_rows)
      ≡ run_batches {C = ℕ} process (λ c. c) 0 0 (pieces 2 3 some_rows))
    × (flatten (pieces 2 3 some_rows) ≡ some_rows)
    × All (λ p. (0 < length p) × (length p ≤ 2)) (pieces 2 3 some_rows)
process_csv-pieces_example = process_csv-pieces process (λ c. c) 2 0 some_rows (omega arith)
