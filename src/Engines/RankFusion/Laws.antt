-- ===== src/Engines/RankFusion/Laws.antt =====
-- What reciprocal rank fusion returns: each id once, with the sum of its contributions, in an order
-- that does not depend on the iterator of the map.
use mathlib.Core.List.{Permᴰ, Memᴰ}
use mathlib.Core.List.Permᴰ
use mathlib.Core.Option
use rust_enterprise_query_en.Common.{
  ℕ, suc, true, List, [], ◌∷◌, ◌++◌, Option, none, some, if◌then◌else◌, arith, ◌≡◌, refl, ◌↔◌, ◌∙◌,
}
use rust_enterprise_query_en.Common.Text.{Text, text_eq}
use rust_enterprise_query_en.Common.Text.Laws.{
  text_eq_iff, text_leb_total, text_leb_trans, text_leb_antisymm,
}
use rust_enterprise_query_en.Common.Floats.{Floats}
use rust_enterprise_query_en.Common.Maps
use rust_enterprise_query_en.Common.Maps.{IsMap}
use rust_enterprise_query_en.Common.Order.{
  sort_by, IsSorted, IsTotal, sort_by-IsSorted, sort_by-perm, sort_by_of_perm, Memᴰ_of_perm,
}
use rust_enterprise_query_en.Engines.RankFusion.{
  reciprocal, add_score, add_scores, ranks_before, fuse_ranked_candidates,
}

module _ (fl : Floats) where
  open fl use {F, zero_f, one_f, add, div, of_ℕ, total_key}

  ranks_before-IsTotal : IsTotal (ranks_before fl)
  unfolding ranks_before
  ranks_before-IsTotal = record {
    total = λ a b h. ground (arith, text_leb_total a.0 b.0);
    trans = λ a b c h k. ground (arith, text_leb_trans a.0 b.0 c.0);
  }

  ranks_before_antisymm :
      (a b : Text × F) → ranks_before fl a b ≡ true → ranks_before fl b a ≡ true → a ≡ b
  unfolding ranks_before
  ranks_before_antisymm a b h k =
      ground (arith, text_leb_antisymm a.0 b.0, fl.total_key_injective a.1 b.1)

  -- What one list contributes to the score of an id: a summand for each place where it stands.
  pub contributions : F → ℕ → Text → List Text → List F
  contributions k r id [] = []
  contributions k r id (j ∷ ids) =
      let rest = contributions k (suc r) id ids in
      if text_eq j id then reciprocal fl k r ∷ rest else rest

  -- An id's score before and after some summands; an id without summands has none.
  plus_all : Option F → List F → Option F
  plus_all score [] = score
  plus_all score (x ∷ xs) = plus_all (some (add (Option.get_or score zero_f) x)) xs

  plus_all-append :
      (score : Option F) (xs ys : List F)
      → plus_all score (xs ++ ys) ≡ plus_all (plus_all score xs) ys
  unfolding plus_all
  plus_all-append score [] ys = refl
  plus_all-append score (x ∷ xs) ys =
      plus_all-append (some (add (Option.get_or score zero_f) x)) xs ys

  lookup-add_scores :
      (k : F) (r : ℕ) (id : Text) (ids : List Text) (m : List (Text × F))
      → Maps.lookup id (add_scores fl k r ids m)
        ≡ plus_all (Maps.lookup id m) (contributions k r id ids)
  unfolding add_scores add_score plus_all contributions
  lookup-add_scores k r id [] m = refl
  lookup-add_scores k r id (j ∷ ids) m = ground (
    arith,
    lookup-add_scores k (suc r) id ids (add_score fl j (reciprocal fl k r) m),
    Maps.lookup-insert j id (add (Option.get_or (Maps.lookup j m) zero_f) (reciprocal fl k r)) m,
    text_eq_iff j id,
  )

  add_scores-IsMap :
      (k : F) (r : ℕ) (ids : List Text) (m : List (Text × F))
      → IsMap m
      → IsMap (add_scores fl k r ids m)
  unfolding add_scores add_score
  add_scores-IsMap k r [] m h = h
  add_scores-IsMap k r (j ∷ ids) m h = add_scores-IsMap k (suc r) ids _ (Maps.insert-IsMap j _ m h)

  -- The map of scores before it is sorted.
  abbrev all_scores : List Text → List Text → F → List (Text × F)
  all_scores dense lexical k = add_scores fl k 0 lexical (add_scores fl k 0 dense [])

  all_scores-IsMap : (dense lexical : List Text) (k : F) → IsMap (all_scores dense lexical k)
  all_scores-IsMap dense lexical k =
      add_scores-IsMap k 0 lexical _ (add_scores-IsMap k 0 dense [] tt)

  -- The sum, in order, of what both lists contribute to the score of an id, starting at 0.0;
  -- nothing for an id that stands in neither.
  pub fused_score : F → List Text → List Text → Text → Option F
  fused_score k dense lexical id =
      plus_all none (contributions k 0 id dense ++ contributions k 0 id lexical)

  lookup-all_scores :
      (dense lexical : List Text) (k : F) (id : Text)
      → Maps.lookup id (all_scores dense lexical k) ≡ fused_score k dense lexical id
  unfolding fused_score Maps.lookup
  lookup-all_scores dense lexical k id = rw (lookup-add_scores, lookup-add_scores, plus_all-append)

module _ (fl : Floats) (iterate : List (Text × fl.F) → List (Text × fl.F)) where
  open fl use {F}

  -- If the iterator of the map yields each entry once, an id and a score are among the results
  -- exactly when the id stands in one of the lists and the score is the sum of its contributions.
  pub mem-fuse_iff :
      ((m : List (Text × F)) → Permᴰ (iterate m) m)
      → (dense lexical : List Text) (k : F) (id : Text) (score : F)
      → Memᴰ (id, score) (fuse_ranked_candidates fl iterate dense lexical k)
        ↔ (fused_score fl k dense lexical id ≡ some score)
  unfolding fuse_ranked_candidates
  mem-fuse_iff yields dense lexical k id score =
      let m = all_scores fl dense lexical k in
      let p : Permᴰ (sort_by (ranks_before fl) (iterate m)) m =
        Permᴰ.trans (sort_by-perm (ranks_before fl) (iterate m)) (yields m) in
      let found = Maps.Memᴰ-lookup_iff id score m (all_scores-IsMap fl dense lexical k) in
      (
        λ t. rw (← lookup-all_scores fl dense lexical k id) (found.0 (Memᴰ_of_perm p t)),
        λ e. Memᴰ_of_perm (Permᴰ.symm p) (found.1 (lookup-all_scores fl dense lexical k id ∙ e)),
      )

  -- The results are in order: by descending score under `total_cmp`, ties by ascending id.
  pub fuse-IsSorted :
      (dense lexical : List Text) (k : F)
      → IsSorted (ranks_before fl) (fuse_ranked_candidates fl iterate dense lexical k)
  unfolding fuse_ranked_candidates
  fuse-IsSorted dense lexical k = sort_by-IsSorted (ranks_before-IsTotal fl) _

  -- The ranking does not depend on the order in which the map's iterator yields its entries.
  pub fuse-iteration_order :
      (other : List (Text × F) → List (Text × F))
      → ((m : List (Text × F)) → Permᴰ (iterate m) m)
      → ((m : List (Text × F)) → Permᴰ (other m) m)
      → (dense lexical : List Text) (k : F)
      → fuse_ranked_candidates fl iterate dense lexical k
        ≡ fuse_ranked_candidates fl other dense lexical k
  unfolding fuse_ranked_candidates
  fuse-iteration_order other p q dense lexical k =
      sort_by_of_perm (ranks_before-IsTotal fl) (ranks_before_antisymm fl)
        (Permᴰ.trans (p _) (Permᴰ.symm (q _)))
