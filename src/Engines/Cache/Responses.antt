-- ===== src/Engines/Cache/Responses.antt =====
-- What the operations of src/engines/cache.rs keep of a property that all responses have.
use rust_enterprise_query_en.Common.{
  All-split, ℕ, List, ◌∷◌, ◌++◌, Option, none, some, ◌≡◌, inl, inr, All, All-append, Bool-cases,
}
use mathlib.Core.Path.{subst}
use rust_enterprise_query_en.Common.Text.{Text}
use rust_enterprise_query_en.Common.Floats.{Floats}
use rust_enterprise_query_en.Engines.Cache.{
  CacheEntry, SemanticCache, touch, make_room, get_exact, get_similar, insert,
}
use rust_enterprise_query_en.Engines.Cache.Exact.{get_exact-FirstMatch, All-make_room}
use rust_enterprise_query_en.Engines.Cache.Similar.{get_similar-Answer}

module _ (fl : Floats) (Q : List ℕ → Type 0) where
  -- Every response of the cache satisfies the predicate.
  abbrev pub Responses : List (CacheEntry fl) → Type 0
  Responses = All (λ e. Q e.response)

  abbrev pub Answers : Option (List ℕ) → Type 0
  Answers none = Unit
  Answers (some response) = Q response

  touched :
      (now : ℕ) (before : List (CacheEntry fl)) (e : CacheEntry fl)
      (after es : List (CacheEntry fl))
      → es ≡ before ++ (e ∷ after)
      → Responses es
      → Responses (before ++ (touch fl now e ∷ after)) × Q e.response
  touched now before e after es whole h =
      let (l, (here, r)) =
        All-split (λ e. Q e.response) before (e ∷ after) (subst Responses whole h) in
      (All-append (λ e. Q e.response) before (touch fl now e ∷ after) l (here, r), here)

  abbrev pub Kept : SemanticCache fl × Option (List ℕ) → Type 0
  Kept out = Responses out.0.entries × Answers out.1

  pub get_exact-Kept :
      (now : ℕ) (query : Text) (c : SemanticCache fl)
      → Responses c.entries
      → Kept (get_exact fl now query c)
  get_exact-Kept now query c h = elim (Bool-cases c.poisoned) [
    | inl bad ↦ unfold get_exact in (rw bad (h, tt))
    | inr sound ↦ elim (get_exact-FirstMatch fl now query c sound) [
      | inl (_, same) ↦ rw same (h, tt)
      | inr (m, same) ↦ rw same (touched now m.before m.entry m.after c.entries m.whole h)
    ]
  ]

  pub get_similar-Kept :
      (now : ℕ) (v : List fl.F) (c : SemanticCache fl)
      → Responses c.entries
      → Kept (get_similar fl now v c)
  get_similar-Kept now v c h = elim (Bool-cases c.poisoned) [
    | inl bad ↦ unfold get_similar in (rw bad (h, tt))
    | inr sound ↦ elim (get_similar-Answer fl now v c sound) [
      | inl (k, _, _, same) ↦ rw same (touched now k.before k.entry k.after c.entries k.whole h)
      | inr (same, _) ↦ rw same (h, tt)
    ]
  ]

  pub insert-Responses :
      (now : ℕ) (query : Text) (v : List fl.F) (response : List ℕ) (c : SemanticCache fl)
      → Responses c.entries
      → Q response
      → Responses (insert fl now query v response c).entries
  unfolding insert
  insert-Responses now query v response c h q = elim (Bool-cases c.poisoned) [
    | inl bad ↦ rw bad h
    | inr sound ↦ rw sound (
        All-append (λ e. Q e.response) (make_room fl c.capacity c.entries) _
          (All-make_room fl (λ e. Q e.response) c.capacity c.entries h) (q, tt))
  ]
