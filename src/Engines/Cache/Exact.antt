-- ===== src/Engines/Cache/Exact.antt =====
-- `get_exact` of src/engines/cache.rs: which entry answers, and what the call changes.
use rust_enterprise_query_en.Common.{
  zero, suc, ℕ, true, false, List, [], ◌∷◌, ◌++◌, map, Option, none, some, ◌≡◌, refl, ap, ◌⊎◌, inl,
  inr, Bool-cases, All, remove_at, suc, arith,
}
use rust_enterprise_query_en.Common.Text.{Text, trim, to_ascii_lowercase, eq_ignore_ascii_case}
use rust_enterprise_query_en.Common.Text.Laws.{eq_ignore_ascii_case_iff}
use rust_enterprise_query_en.Common.Floats.{Floats}
use rust_enterprise_query_en.Engines.Cache.{
  CacheEntry, touch, is_exact, find_exact, make_room, get_exact, insert, SemanticCache, entry_of,
  evict_oldest, oldest, oldest_from,
}

-- Queries are compared without their outer blanks and without the case of ASCII letters.
abbrev pub key_of : Text → Text
key_of query = map to_ascii_lowercase (trim query)

module _ (fl : Floats) where
  abbrev pub Matches : Text → CacheEntry fl → Type 0
  Matches query e = key_of e.query ≡ key_of query

  -- The first entry that matches, with what stands before and behind it.
  pub record FirstMatch (query : Text) (es : List (CacheEntry fl)) : Type 0 where
    pub before : List (CacheEntry fl)
    pub entry : CacheEntry fl
    pub after : List (CacheEntry fl)
    pub whole : es ≡ before ++ (entry ∷ after)
    pub matched : Matches query entry
    pub earlier : All (λ e. ¬ Matches query e) before

  is_exact-Matches :
      (query : Text) (e : CacheEntry fl) → is_exact fl (trim query) e ≡ true → Matches query e
  unfolding is_exact
  is_exact-Matches query e = (eq_ignore_ascii_case_iff _ _).0

  is_exact-false :
      (query : Text) (e : CacheEntry fl) → is_exact fl (trim query) e ≡ false → ¬ Matches query e
  unfolding is_exact
  is_exact-false query e h =
      λ m. let t = (eq_ignore_ascii_case_iff (trim e.query) (trim query)).1 m in cc

  -- What `find_exact` returns, in either case.
  Found : ℕ → Text → List (CacheEntry fl) → List (CacheEntry fl) × Option (List ℕ) → Type 0
  Found now query es out =
      (All (λ e. ¬ Matches query e) es × (out ≡ (es, none)))
      ⊎ ((m : FirstMatch query es) × (out
            ≡ (m.before ++ (touch fl now m.entry ∷ m.after), some m.entry.response)))

  find_exact-Found :
      (now : ℕ) (query : Text) (es : List (CacheEntry fl))
      → Found now query es (find_exact fl now (trim query) es)
  unfolding find_exact Found
  find_exact-Found now query [] = inl (tt, refl)
  find_exact-Found now query (e ∷ es) = elim (Bool-cases (is_exact fl (trim query) e)) [
    | inl hit ↦ rw hit (
        inr (
          record {
            before = [];
            entry = e;
            after = es;
            whole = refl;
            matched = is_exact-Matches query e hit;
            earlier = tt;
          },
          refl,
        ))
    | inr other ↦ rw other (elim (find_exact-Found now query es) [
      | inl (none_here, same) ↦ inl ((is_exact-false query e other, none_here), rw same)
      | inr (m, same) ↦ inr (
        record {
          before = e ∷ m.before;
          entry = m.entry;
          after = m.after;
          whole = ap (◌∷◌ e) m.whole;
          matched = m.matched;
          earlier = (is_exact-false query e other, m.earlier);
        },
        rw same,
      )
    ])
  ]

  -- On a cache whose lock is sound, `get_exact` either finds no entry that matches, and changes
  -- nothing, or it returns the response of the first entry that matches, and sets the access time
  -- of that entry and of no other.
  pub get_exact-FirstMatch :
      (now : ℕ) (query : Text) (c : SemanticCache fl)
      → c.poisoned ≡ false
      → (All (λ e. ¬ Matches query e) c.entries × (get_exact fl now query c ≡ (c, none)))
        ⊎ ((m : FirstMatch query c.entries) × (get_exact fl now query c ≡ (
          record c { entries = m.before ++ (touch fl now m.entry ∷ m.after) },
          some m.entry.response,
        )))
  unfolding get_exact Found
  get_exact-FirstMatch now query c sound = elim (find_exact-Found now query c.entries) [
    | inl (none_here, same) ↦ inl (none_here, rw (sound, same))
    | inr (m, same) ↦ inr (m, rw (sound, same))
  ]

  find_exact_same :
      (now : ℕ) (q r : Text) (es : List (CacheEntry fl))
      → key_of q ≡ key_of r
      → find_exact fl now (trim q) es ≡ find_exact fl now (trim r) es
  unfolding find_exact is_exact eq_ignore_ascii_case
  find_exact_same now q r [] h = refl
  find_exact_same now q r (e ∷ es) h = rw (h, find_exact_same now q r es h)

  -- Queries that differ in outer blanks or in the case of ASCII letters only get the same answer,
  -- and leave the same cache.
  pub get_exact_same_key :
      (now : ℕ) (q r : Text) (c : SemanticCache fl)
      → key_of q ≡ key_of r
      → get_exact fl now q c ≡ get_exact fl now r c
  unfolding get_exact
  get_exact_same_key now q r c h = rw (find_exact_same now q r c.entries h)

  find_exact_skips :
      (now : ℕ) (query : Text) (es fs : List (CacheEntry fl))
      → All (λ e. ¬ Matches query e) es
      → (find_exact fl now (trim query) (es ++ fs)).1 ≡ (find_exact fl now (trim query) fs).1
  unfolding find_exact
  find_exact_skips now query [] fs h = refl
  find_exact_skips now query (e ∷ es) fs (other, h) =
      elim (Bool-cases (is_exact fl (trim query) e)) [
        | inl hit ↦ absurd (other (is_exact-Matches query e hit))
        | inr miss ↦ rw miss (find_exact_skips now query es fs h)
      ]

  is_exact_self :
      (query : Text) (e : CacheEntry fl) → e.query ≡ query → is_exact fl (trim query) e ≡ true
  unfolding is_exact
  is_exact_self query e h = (eq_ignore_ascii_case_iff _ _).1 (rw h)

  All-evict :
      (P : CacheEntry fl → Type 0) (es : List (CacheEntry fl)) (i : ℕ)
      → All P es
      → All P (remove_at i es)
  All-evict P [] i h = tt
  All-evict P (e ∷ es) zero h = h.1
  All-evict P (e ∷ es) (suc i) h = (h.0, All-evict P es i h.1)

  pub All-make_room :
      (P : CacheEntry fl → Type 0) (cap : ℕ) (es : List (CacheEntry fl))
      → All P es
      → All P (make_room fl cap es)
  unfolding make_room evict_oldest oldest
  All-make_room P cap [] h = ground arith
  All-make_room P cap (e ∷ es) h =
      ground (arith, All-evict P (e ∷ es) (oldest_from fl 1 (0, e.last_accessed) es).0)

  -- Where no entry matches a query, inserting a response for it makes `get_exact` return that
  -- response, whatever was evicted.
  pub get_exact-insert :
      (now later : ℕ) (query : Text) (emb : List fl.F) (response : List ℕ) (c : SemanticCache fl)
      → c.poisoned ≡ false
      → All (λ e. ¬ Matches query e) c.entries
      → (get_exact fl later query (insert fl now query emb response c)).1 ≡ some response
  unfolding get_exact insert
  get_exact-insert now later query emb response c sound h =
      rw
        (
          sound,
          find_exact_skips later query (make_room fl c.capacity c.entries) _
              (All-make_room (λ e. ¬ Matches query e) c.capacity c.entries h),
        )
        (unfold find_exact in (rw (is_exact_self query (entry_of fl now query emb response) refl)))
