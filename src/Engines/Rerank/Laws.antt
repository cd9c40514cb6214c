-- ===== src/Engines/Rerank/Laws.antt =====
-- What re-ranking returns: the best `top_k` candidates in order of score, and every error path.
use mathlib.Core.List.{Permᴰ, zip}
use rust_enterprise_query_en.Common.{
  ◌==◌, ℕ, zero, suc, min, true, List, [], ◌∷◌, ◌++◌, map, ◌≡◌, refl, ap, ◌∙◌, length, take, drop,
  Result, ok, err, arith, All, take-append-drop, length-take, ◌≢◌, inl, inr, ◌⊎◌, Result-cases,
  Bool-cases, false, ◌<◌,
}
use rust_enterprise_query_en.Common.Text.{Text}
use rust_enterprise_query_en.Common.Floats.{Floats, descending-IsTotal}
use rust_enterprise_query_en.Common.Order.{
  sort_by, IsTotal, IsSorted, sort_by-perm, sort_by-IsSorted, length-sort_by, IsSorted-cut,
  IsSorted-take, sort_by_of_IsSorted,
}
use rust_enterprise_query_en.Engines.Rerank.{
  scorer_failed, wrong_count, Candidate, scored_before, rerank_by_scores, nothing_wanted,
  rerank_candidates_with_scorer, RerankError,
}

module _ {ℓ} (fl : Floats) (T : Type ℓ) where
  open fl use {F}

  scored_before-IsTotal : IsTotal (scored_before fl T)
  scored_before-IsTotal = record {
    total = λ a b. (descending-IsTotal fl).total a.1 b.1;
    trans = λ a b c. (descending-IsTotal fl).trans a.1 b.1 c.1;
  }

  -- The scored candidates split into those that are kept and those that are cut off.
  pub record TopK (pairs : List (Candidate fl T × F)) (k : ℕ) (out : List (Candidate fl T))
      : Type ℓ where
    pub kept : List (Candidate fl T × F)
    pub cut : List (Candidate fl T × F)
    pub whole : Permᴰ (kept ++ cut) pairs
    pub result : out ≡ map (λ p. p.0) kept
    pub count : length kept ≡ min k (length pairs)
    pub ordered : IsSorted (scored_before fl T) kept
    pub best : All (λ p. All (λ q. scored_before fl T p q ≡ true) cut) kept

  -- The result holds the `top_k` best candidates, or all if there are fewer, by descending score.
  pub rerank_by_scores-TopK :
      (candidates : List (Candidate fl T)) (scores : List F) (k : ℕ)
      → TopK (zip candidates scores) k (rerank_by_scores fl T candidates scores k)
  unfolding rerank_by_scores
  rerank_by_scores-TopK candidates scores k =
      let pairs = zip candidates scores in
      let sorted = sort_by (scored_before fl T) pairs in
      let in_order = sort_by-IsSorted scored_before-IsTotal pairs in
      record {
        kept = take k sorted;
        cut = drop k sorted;
        whole = rw (take-append-drop k sorted) (sort_by-perm (scored_before fl T) pairs);
        result = refl;
        count = length-take k sorted ∙ ap (min k) (length-sort_by (scored_before fl T) pairs);
        ordered = IsSorted-take (scored_before fl T) k sorted in_order;
        best = IsSorted-cut (scored_before fl T) k sorted in_order;
      }

  map-zip :
      (xs : List (Candidate fl T)) (ys : List F) (k : ℕ)
      → length ys ≡ length xs
      → map (λ p. p.0) (take k (zip xs ys)) ≡ take k xs
  unfolding zip
  map-zip xs ys zero h = refl
  map-zip [] [] (suc k) h = refl
  map-zip [] (y ∷ ys) (suc k) h = refl
  map-zip (x ∷ xs) [] (suc k) h = absurd (omega arith)
  map-zip (x ∷ xs) (y ∷ ys) (suc k) h = ap (◌∷◌ x) (map-zip xs ys k (omega arith))

  -- Scores that fall already, or are all equal, leave the candidates in the order they came in.
  pub rerank_by_scores_stable :
      (candidates : List (Candidate fl T)) (scores : List F) (k : ℕ)
      → length scores ≡ length candidates
      → IsSorted (scored_before fl T) (zip candidates scores)
      → rerank_by_scores fl T candidates scores k ≡ take k candidates
  unfolding rerank_by_scores
  rerank_by_scores_stable candidates scores k h sorted =
      rw (sort_by_of_IsSorted (scored_before fl T) (zip candidates scores) sorted)
        (map-zip candidates scores k h)

  module _ {κ} {E : Type κ} (scorer : Text → List Text → Result E (List F)) (query : Text) where
    nothing_among : (k : ℕ) → nothing_wanted fl T [] k ≡ true
    unfolding nothing_wanted
    nothing_among k = refl

    nothing_wanted-zero :
        (candidates : List (Candidate fl T)) → nothing_wanted fl T candidates 0 ≡ true
    unfolding nothing_wanted
    nothing_wanted-zero candidates = ground arith

    something_wanted :
        (c : Candidate fl T) (cs : List (Candidate fl T)) (k : ℕ)
        → nothing_wanted fl T (c ∷ cs) (suc k) ≡ false
    unfolding nothing_wanted
    something_wanted c cs k = ground arith

    abbrev scored : List (Candidate fl T) → Result E (List F)
    scored candidates = scorer query (map (λ c. c.1) candidates)

    -- The ways in which re-ranking can end, each with what it takes.
    abbrev pub Outcome :
        List (Candidate fl T) → ℕ → Result (RerankError E) (List (Candidate fl T)) → Type (ℓ ⊔ κ)
    Outcome candidates k out =
        (((k ≡ 0) ⊎ (candidates ≡ [])) × (out ≡ ok []))
        ⊎ ((0 < k)
            × (0 < length candidates)
            × (((e : E) × (scored candidates ≡ err e) × (out ≡ err (scorer_failed e)))
                ⊎ ((scores : List F) × (scored candidates ≡ ok scores)
                    × (((length scores ≢ length candidates)
                          × (out ≡ err (wrong_count (length scores) (length candidates))))
                        ⊎ ((length scores ≡ length candidates)
                            × ((best : List (Candidate fl T)) × (out ≡ ok best)
                                × TopK (zip candidates scores) k best))))))

    -- If nothing is wanted or there is no candidate, then re-ranking returns nothing, whatever the
    -- scorer does, its failures included. Only else the scorer counts: re-ranking fails as the
    -- scorer fails; refuses a wrong number of scores, with both numbers; and for as many scores as
    -- candidates returns the best `top_k` candidates, or all if there are fewer, by descending score,
    -- none of those cut off having a higher one.
    pub rerank-Outcome :
        (candidates : List (Candidate fl T)) (k : ℕ)
        → Outcome candidates k (rerank_candidates_with_scorer fl T scorer candidates query k)
    unfolding rerank_candidates_with_scorer
    rerank-Outcome [] k = inl (inr refl, rw (nothing_among k))
    rerank-Outcome (c ∷ cs) zero = inl (inl refl, rw (nothing_wanted-zero (c ∷ cs)))
    rerank-Outcome (c ∷ cs) (suc k) =
        let wanted : nothing_wanted fl T (c ∷ cs) (suc k) ≡ false = something_wanted c cs k in
        inr (
          omega arith,
          omega arith,
          elim (Result-cases (scored (c ∷ cs))) [
            | inr (e, failed) ↦ inl (e, failed, rw (wanted, failed))
            | inl (scores, given) ↦ inr (
              scores,
              given,
              elim (Bool-cases (length scores == length (c ∷ cs))) [
                | inr differs ↦ inl (ground arith, rw (wanted, given, differs))
                | inl same ↦
                    let best = rerank_by_scores fl T (c ∷ cs) scores (suc k) in
                    let top = rerank_by_scores-TopK (c ∷ cs) scores (suc k) in
                    inr (ground arith, (best, rw (wanted, given, same), top))
              ],
            )
          ],
        )
