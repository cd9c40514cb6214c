-- ===== src/Tests/SearchTests.antt =====
-- Rank fusion, re-ranking and the vector search at concrete inputs.
use mathlib.Core.List.{Permᴰ, Memᴰ}
use mathlib.Core.List.Permᴰ
use rust_enterprise_query_en.Common.{
  ℕ, List, [], ◌∷◌, ◌++◌, map, some, Result, ok, ◌≡◌, ◌≢◌, refl, ◌↔◌, All, length,
}
use rust_enterprise_query_en.Common.Text.{
  is_empty, is_whitespace, contains, starts_with, strip_prefix, text_eq, text_leb, Text, codes,
}
use rust_enterprise_query_en.Common.Order.{sort_by, insert_sorted}
use rust_enterprise_query_en.Engines.RankFusion.{
  add_scores, add_score, reciprocal, ranks_before, fuse_ranked_candidates,
}
use rust_enterprise_query_en.Engines.RankFusion.Laws.{
  fused_score, mem-fuse_iff, fuse-iteration_order,
}
use rust_enterprise_query_en.Engines.Rerank.{Candidate, rerank_candidates_with_scorer}
use rust_enterprise_query_en.Engines.Rerank.Laws.{Outcome, rerank-Outcome}
use rust_enterprise_query_en.Engines.Vector.{
  word_runs, drop_empty, add_to_word, apply_filters, apply_filter, exclude, include,
  extract_chunks_from_stream, extract_rows, rank_chunks, take_chunks, not_prefix, split_whitespace,
  build_fallback_sql, execute_hybrid_search_on_connection,
}
use rust_enterprise_query_en.Engines.Vector.FallbackSql.{
  pattern_of, read_conditions, read_conditions-build_fallback_sql,
}
use rust_enterprise_query_en.Engines.Vector.Exclusion.{Lacks, hybrid_search-Lacks}
use rust_enterprise_query_en.Common.Maps
use rust_enterprise_query_en.Tests.Concrete.{numbers, store, name_of}

abbrev dense : List Text
dense = codes "a" ∷ codes "b" ∷ []

abbrev lexical : List Text
lexical = codes "b" ∷ codes "c" ∷ []

-- An iterator that changes places at the front.
abbrev turned : List (Text × ℕ) → List (Text × ℕ)
turned [] = []
turned (x ∷ []) = x ∷ []
turned (x ∷ y ∷ m) = y ∷ x ∷ m

turned-perm : (m : List (Text × ℕ)) → Permᴰ (turned m) m
turned-perm [] = Permᴰ.nil
turned-perm (x ∷ []) = Permᴰ.refl (x ∷ [])
turned-perm (x ∷ y ∷ m) = Permᴰ.swap refl refl

mem-fuse_iff_example :
    Memᴰ (codes "b", 1) (fuse_ranked_candidates numbers turned dense lexical 0)
    ↔ (fused_score numbers 0 dense lexical (codes "b") ≡ some 1)
mem-fuse_iff_example = mem-fuse_iff numbers turned turned-perm dense lexical 0 (codes "b") 1

fuse-iteration_order_example :
    fuse_ranked_candidates numbers turned dense lexical 0
    ≡ fuse_ranked_candidates numbers (λ m. m) dense lexical 0
fuse-iteration_order_example =
    fuse-iteration_order numbers turned (λ m. m) turned-perm (λ m. Permᴰ.refl m) dense lexical 0

abbrev candidates : List (Candidate numbers ℕ)
candidates = (1, codes "x") ∷ (2, codes "y") ∷ (3, codes "z") ∷ []

abbrev scores : List ℕ
scores = 7 ∷ 7 ∷ 2 ∷ []

abbrev scorer : Text → List Text → Result ℕ (List ℕ)
scorer query texts = ok (map length texts)

rerank-Outcome_example :
    Outcome numbers ℕ scorer
      (codes "q")
      candidates
      2
      (rerank_candidates_with_scorer numbers ℕ scorer candidates (codes "q") 2)
rerank-Outcome_example = rerank-Outcome numbers ℕ scorer (codes "q") candidates 2

abbrev intent : Text
intent = codes "x' OR"

intent_words : split_whitespace intent ≢ []
unfolding split_whitespace word_runs drop_empty add_to_word is_whitespace
intent_words = λ h. cc

read_conditions-build_fallback_sql_example :
    read_conditions (length (split_whitespace intent)) (build_fallback_sql intent)
    ≡ some (map pattern_of (split_whitespace intent))
read_conditions-build_fallback_sql_example = read_conditions-build_fallback_sql intent intent_words

abbrev found : List (Text × Text)
found = (codes "2", codes "cd") ∷ []

searched :
    execute_hybrid_search_on_connection numbers store name_of turned 0 [] 0
      ([] ++ ((not_prefix ++ codes "b") ∷ []))
    ≡ ok found
unfolding execute_hybrid_search_on_connection apply_filters apply_filter exclude include
    extract_chunks_from_stream extract_rows rank_chunks take_chunks fuse_ranked_candidates
    add_scores add_score reciprocal ranks_before Maps.lookup Maps.insert Maps.remove Maps.retain
    sort_by insert_sorted contains starts_with strip_prefix text_eq text_leb is_empty
searched = refl

hybrid_search-Lacks_example : All (λ (c : Text × Text). Lacks (codes "b") c.1) found
hybrid_search-Lacks_example =
    hybrid_search-Lacks numbers store name_of turned 0 [] 0 [] (codes "b") [] tt searched
