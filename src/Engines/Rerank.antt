-- ===== src/Engines/Rerank.antt =====
-- src/engines/rerank.rs: re-ranking of candidates by the scores of a cross-encoder. The model and
-- the tokenizer stand behind the parameter `scorer`, a candidate's payload `T` is any type.
pub mod Laws
use rust_enterprise_query_en.Common.{
  ℕ, zero, suc, Bool, true, false, ◌||◌, List, [], ◌∷◌, map, ◌==◌, if◌then◌else◌, length, take,
  Result, ok, err, ◌>>=◌, map_err,
}
use rust_enterprise_query_en.Common.Text.{Text}
use rust_enterprise_query_en.Common.Floats.{Floats, descending}
use rust_enterprise_query_en.Common.Order.{sort_by}
use mathlib.Core.List.{zip}

-- The scorer's own error, or the message about the number of scores.
pub data RerankError {ℓ} (E : Type ℓ) : Type ℓ where
  scorer_failed : E → RerankError E
  wrong_count : (scores candidates : ℕ) → RerankError E

module _ {ℓ} (fl : Floats) (T : Type ℓ) where
  open fl use {F}

  abbrev pub Candidate : Type ℓ
  Candidate = T × Text

  -- `score_b.total_cmp(score_a)`
  abbrev pub scored_before : Candidate × F → Candidate × F → Bool
  scored_before p q = descending fl p.1 q.1

  unfoldable pub rerank_by_scores : List Candidate → List F → ℕ → List Candidate
  rerank_by_scores candidates scores top_k =
      map (λ p. p.0) (take top_k (sort_by scored_before (zip candidates scores)))

  -- `candidates.is_empty() || top_k == 0`
  unfoldable pub nothing_wanted : List Candidate → ℕ → Bool
  nothing_wanted candidates top_k = length candidates == 0 || top_k == 0

  unfoldable pub rerank_candidates_with_scorer {κ} :
      {E : Type κ}
      → (Text → List Text → Result E (List F))
      → List Candidate
      → Text
      → ℕ
      → Result (RerankError E) (List Candidate)
  rerank_candidates_with_scorer scorer candidates query top_k =
      if nothing_wanted candidates top_k then ok [] else do
        scores ← map_err scorer_failed (scorer query (map (λ c. c.1) candidates))
        if length scores == length candidates
            then ok (rerank_by_scores candidates scores top_k)
            else err (wrong_count (length scores) (length candidates))
