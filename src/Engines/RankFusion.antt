-- ===== src/Engines/RankFusion.antt =====
-- src/engines/rank_fusion.rs: reciprocal rank fusion of two ranked lists.
pub mod Laws
use rust_enterprise_query_en.Common.{
  ℕ, zero, suc, ◌+◌, Bool, ◌&&◌, ◌||◌, List, [], ◌∷◌, Option, none, some, ltb, ◌==◌, if◌then◌else◌,
}
use rust_enterprise_query_en.Common.Text.{Text, text_leb}
use rust_enterprise_query_en.Common.Floats.{Floats}
use rust_enterprise_query_en.Common.Maps
use rust_enterprise_query_en.Common.Order.{sort_by}
use mathlib.Core.Option

module _ (fl : Floats) where
  open fl use {F, zero_f, one_f, add, div, of_ℕ, total_key}

  -- `1.0 / (k + (r + 1) as f32)`
  unfoldable pub reciprocal : F → ℕ → F
  reciprocal k r = div one_f (add k (of_ℕ (suc r)))

  -- `*scores.entry(id).or_default() += x`
  unfoldable pub add_score : Text → F → List (Text × F) → List (Text × F)
  add_score id x scores =
      Maps.insert id (add (Option.get_or (Maps.lookup id scores) zero_f) x) scores

  -- One `for` loop; `r` is the counter of `enumerate`.
  unfoldable pub add_scores : F → ℕ → List Text → List (Text × F) → List (Text × F)
  add_scores k r [] scores = scores
  add_scores k r (id ∷ ids) scores = add_scores k (suc r) ids (add_score id (reciprocal k r) scores)

  -- The comparison of `sort_by`: by descending score, then by ascending id.
  unfoldable pub ranks_before : Text × F → Text × F → Bool
  ranks_before a b =
      ltb (total_key b.1) (total_key a.1) || (total_key b.1 == total_key a.1 && text_leb a.0 b.0)

  -- `iterate` is the order in which the map's iterator yields its entries.
  unfoldable pub fuse_ranked_candidates :
      (List (Text × F) → List (Text × F)) → List Text → List Text → F → List (Text × F)
  fuse_ranked_candidates iterate dense lexical k =
      sort_by ranks_before (iterate (add_scores k 0 lexical (add_scores k 0 dense [])))
