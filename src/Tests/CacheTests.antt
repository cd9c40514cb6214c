-- ===== src/Tests/CacheTests.antt =====
-- The cache at concrete inputs.
use rust_enterprise_query_en.Common.{
  ℕ, [], ◌∷◌, ◌++◌, none, some, false, ◌≡◌, refl, ◌⊎◌, arith, All,
}
use rust_enterprise_query_en.Common.Text.{Text, codes}
use rust_enterprise_query_en.Engines.Cache.{
  CacheEntry, SemanticCache, touch, entry_of, get_exact, get_similar, insert,
}
use rust_enterprise_query_en.Engines.Cache.Exact.{Matches, FirstMatch, get_exact-FirstMatch}
use rust_enterprise_query_en.Engines.Cache.Insert.{Oldest, insert-Oldest}
use rust_enterprise_query_en.Engines.Cache.Similar.{Answer, get_similar-Answer}
use rust_enterprise_query_en.Tests.Concrete.{numbers}

abbrev entry : Text → ℕ → CacheEntry numbers
entry query time = record {
  query = query;
  embedding = 1 ∷ 0 ∷ [];
  response = time ∷ [];
  last_accessed = time;
}

abbrev cache : SemanticCache numbers
cache = record {
  entries = entry (codes "one") 5 ∷ entry (codes "two") 3 ∷ [];
  capacity = 2;
  threshold = 1;
  poisoned = false;
}

abbrev asked : Text
asked = codes " ONE "

get_exact-FirstMatch_example :
    (All (λ e. ¬ Matches numbers asked e) cache.entries
      × (get_exact numbers 9 asked cache ≡ (cache, none)))
    ⊎ ((m : FirstMatch numbers asked cache.entries) × (get_exact numbers 9 asked cache ≡ (
      record cache { entries = m.before ++ (touch numbers 9 m.entry ∷ m.after) },
      some m.entry.response,
    )))
get_exact-FirstMatch_example = get_exact-FirstMatch numbers 9 asked cache refl

insert-Oldest_example :
    (o : Oldest numbers cache.entries) × (insert numbers 9 asked (1 ∷ []) (4 ∷ []) cache
      ≡ record cache {
        entries = (o.before ++ o.after) ++ entry_of numbers 9 asked (1 ∷ []) (4 ∷ []) ∷ [];
      })
insert-Oldest_example =
    insert-Oldest numbers 9 asked (1 ∷ []) (4 ∷ []) cache refl (omega arith) (omega arith)

get_similar-Answer_example :
    Answer numbers 9 (1 ∷ 0 ∷ []) cache (get_similar numbers 9 (1 ∷ 0 ∷ []) cache)
get_similar-Answer_example = get_similar-Answer numbers 9 (1 ∷ 0 ∷ []) cache refl
