-- ===== src/Engines/Cache.antt =====
-- src/engines/cache.rs: the in-memory semantic cache.
--
-- The `RwLock` serialises the calls, so a call is a step on the state; `poisoned` is the lock's own
-- flag, on which the methods return early. The clock is an argument, `now`, the nanoseconds that
-- `current_epoch_nanos` returns at the call. Embeddings are lists of `f32`, responses byte lists.
pub mod Exact
pub mod Insert
pub mod Similar
pub mod Responses
pub mod History
use rust_enterprise_query_en.Common.{
  ℕ, zero, suc, Bool, true, false, not, ◌&&◌, List, [], ◌∷◌, ◌++◌, Option, none, some, ltb, leb,
  ◌==◌, if◌then◌else◌, length, remove_at,
}
use rust_enterprise_query_en.Common.Text.{Text, trim, eq_ignore_ascii_case}
use rust_enterprise_query_en.Common.Floats.{Floats}
use mathlib.Core.List.{zip, map}

module _ (fl : Floats) where
  open fl use {F, minus_one_f, mul, sum, gt, ge}

  pub record CacheEntry : Type 0 where
    pub query : Text
    pub embedding : List F
    pub response : List ℕ
    pub last_accessed : ℕ

  pub record SemanticCache : Type 0 where
    pub entries : List CacheEntry
    pub capacity : ℕ
    pub threshold : F
    pub poisoned : Bool

  -- `SemanticCache::new`
  unfoldable pub new : ℕ → F → SemanticCache
  new capacity threshold = record {
    entries = [];
    capacity = capacity;
    threshold = threshold;
    poisoned = false;
  }

  -- `last_accessed.store(now)`
  abbrev pub touch : ℕ → CacheEntry → CacheEntry
  touch now e = record e { last_accessed = now }

  -- The test of the loop of `get_exact`.
  unfoldable pub is_exact : Text → CacheEntry → Bool
  is_exact norm e = eq_ignore_ascii_case (trim e.query) norm

  -- The loop of `get_exact`: the entries afterwards, and the response of the first match.
  unfoldable pub find_exact : ℕ → Text → List CacheEntry → List CacheEntry × Option (List ℕ)
  find_exact now norm [] = ([], none)
  find_exact now norm (e ∷ es) =
      let rest = find_exact now norm es in
      if is_exact norm e then (touch now e ∷ es, some e.response) else (e ∷ rest.0, rest.1)

  unfoldable pub get_exact : ℕ → Text → SemanticCache → SemanticCache × Option (List ℕ)
  get_exact now query c =
      let found = find_exact now (trim query) c.entries in
      if c.poisoned then (c, none) else (record c { entries = found.0 }, found.1)

  -- `embedding.iter().zip(query_emb).map(|(a, b)| a * b).sum()`
  unfoldable pub dot : List F → List F → F
  dot xs ys = sum (map (λ p. mul p.0 p.1) (zip xs ys))

  -- `best_sim` and `best_entry`; an entry is named by its index.
  abbrev pub Best : Type 0
  Best = F × Option (ℕ × CacheEntry)

  -- One round of the loop of `get_similar`.
  unfoldable pub improve : List F → ℕ → CacheEntry → Best → Best
  improve emb i e best =
      if length e.embedding == length emb && gt (dot e.embedding emb) best.0
      then (dot e.embedding emb, some (i, e))
      else best

  unfoldable pub best_from : List F → ℕ → List CacheEntry → Best → Best
  best_from emb i [] best = best
  best_from emb i (e ∷ es) best = best_from emb (suc i) es (improve emb i e best)

  -- `last_accessed.store(now)` through the reference to entry `i`.
  unfoldable pub touch_at : ℕ → ℕ → List CacheEntry → List CacheEntry
  touch_at now i [] = []
  touch_at now zero (e ∷ es) = touch now e ∷ es
  touch_at now (suc i) (e ∷ es) = e ∷ touch_at now i es

  unfoldable pub answer_best :
      ℕ → SemanticCache → Option (ℕ × CacheEntry) → SemanticCache × Option (List ℕ)
  answer_best now c none = (c, none)
  answer_best now c (some (i, e)) =
      (record c { entries = touch_at now i c.entries }, some e.response)

  unfoldable pub get_similar : ℕ → List F → SemanticCache → SemanticCache × Option (List ℕ)
  get_similar now emb c =
      let best = best_from emb 0 c.entries (minus_one_f, none) in
      if c.poisoned
      then (c, none)
      else if ge best.0 c.threshold
      then answer_best now c best.1
      else (c, none)

  -- `min_by_key(last_accessed)`: the index of the first least recently used entry, with its time.
  unfoldable pub oldest_from : ℕ → ℕ × ℕ → List CacheEntry → ℕ × ℕ
  oldest_from i best [] = best
  oldest_from i best (e ∷ es) =
      oldest_from (suc i) (if ltb e.last_accessed best.1 then (i, e.last_accessed) else best) es

  unfoldable pub oldest : List CacheEntry → Option ℕ
  oldest [] = none
  oldest (e ∷ es) = some (oldest_from 1 (0, e.last_accessed) es).0

  unfoldable pub evict_oldest : List CacheEntry → Option ℕ → List CacheEntry
  evict_oldest es none = es
  evict_oldest es (some i) = remove_at i es

  -- The eviction of `insert`.
  unfoldable pub make_room : ℕ → List CacheEntry → List CacheEntry
  make_room capacity es =
      if leb capacity (length es) && ltb 0 (length es) then evict_oldest es (oldest es) else es

  abbrev pub entry_of : ℕ → Text → List F → List ℕ → CacheEntry
  entry_of now query embedding response = record {
    query = query;
    embedding = embedding;
    response = response;
    last_accessed = now;
  }

  unfoldable pub insert : ℕ → Text → List F → List ℕ → SemanticCache → SemanticCache
  insert now query embedding response c = if c.poisoned then c else record c {
    entries = make_room c.capacity c.entries ++ entry_of now query embedding response ∷ [];
  }

  unfoldable pub len : SemanticCache → ℕ
  len c = if c.poisoned then 0 else length c.entries

  unfoldable pub is_empty : SemanticCache → Bool
  unfolding len
  is_empty c = len c == 0
