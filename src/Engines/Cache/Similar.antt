-- ===== src/Engines/Cache/Similar.antt =====
-- `get_similar` of src/engines/cache.rs: which entry answers.
use rust_enterprise_query_en.Common.{
  ℕ, suc, Bool, true, false, ◌&&◌, List, [], ◌∷◌, ◌++◌, Option, none, some, ◌≡◌, refl, ap, ◌∙◌, ◌⊎◌,
  inl, inr, Bool-cases, All, All-append, All-map, arith, length, length-append, ◌==◌, append-nil,
  append_assoc, &&-eq-true, ==_iff,
}
use rust_enterprise_query_en.Common.Floats.{Floats}
use rust_enterprise_query_en.Engines.Cache.{
  CacheEntry, SemanticCache, touch, dot, Best, improve, best_from, touch_at, answer_best,
  get_similar,
}

module _ (fl : Floats) where
  open fl use {F, minus_one_f, gt, ge}

  -- An entry takes part if its embedding is as long as the query's.
  abbrev pub IsComparable : List F → CacheEntry fl → Type 0
  IsComparable emb e = length e.embedding ≡ length emb

  -- No entry that takes part is more similar than `best`.
  abbrev pub NoneAbove : List F → F → List (CacheEntry fl) → Type 0
  NoneAbove emb best =
      All (λ e. (length e.embedding == length emb && gt (dot fl e.embedding emb) best) ≡ false)

  -- An entry that takes part and is more similar than -1, with what stands before and behind it.
  pub record Candidate (emb : List F) (es : List (CacheEntry fl)) : Type 0 where
    pub before : List (CacheEntry fl)
    pub entry : CacheEntry fl
    pub after : List (CacheEntry fl)
    pub whole : es ≡ before ++ (entry ∷ after)
    pub comparable : IsComparable emb entry
    pub positive : gt (dot fl entry.embedding emb) minus_one_f ≡ true

  -- `best_sim` and `best_entry` are those of a candidate, or still the initial ones.
  Holds : (emb : List F) (seen : List (CacheEntry fl)) → Best fl → Type 0
  Holds emb seen best =
      (best ≡ (minus_one_f, none))
      ⊎ ((k : Candidate emb seen) × (best
            ≡ (dot fl k.entry.embedding emb, some (length k.before, k.entry))))

  BestOf : List F → List (CacheEntry fl) → Best fl → Type 0
  BestOf emb seen best = NoneAbove emb best.0 seen × Holds emb seen best

  gt_false_trans : (x y z : F) → gt x y ≡ true → gt z y ≡ false → gt z x ≡ false
  gt_false_trans x y z h k = elim (Bool-cases (gt z x)) [
    | inl above ↦ let t = fl.gt_trans z x y above h in cc
    | inr not_above ↦ not_above
  ]

  stays_below :
      (takes_part : Bool) (x y z : F)
      → gt x y ≡ true
      → (takes_part && gt z y) ≡ false
      → (takes_part && gt z x) ≡ false
  stays_below true x y z h k = gt_false_trans x y z h k
  stays_below false x y z h k = refl

  &&-false : (a : Bool) {b : Bool} → b ≡ false → (a && b) ≡ false
  &&-false a h = ground arith

  -- An entry that takes part and beats the best becomes the best.
  improve_hit :
      (emb : List F) (seen : List (CacheEntry fl)) (e : CacheEntry fl) (best : F)
      → NoneAbove emb best seen
      → gt (dot fl e.embedding emb) best ≡ true
      → NoneAbove emb (dot fl e.embedding emb) (seen ++ e ∷ [])
  improve_hit emb seen e best none_above beats =
      All-append
        (λ x.
          (length x.embedding == length emb && gt (dot fl x.embedding emb) (dot fl e.embedding emb))
          ≡ false)
        seen (e ∷ [])
        (All-map seen
          (λ x h.
            stays_below (length x.embedding == length emb) (dot fl e.embedding emb) best
              (dot fl x.embedding emb) beats h)
          none_above)
        (&&-false (length e.embedding == length emb) (fl.gt_irrefl _), tt)

  positive_next :
      (emb : List F) (seen : List (CacheEntry fl)) (best : Best fl) (x : F)
      → Holds emb seen best
      → gt x best.0 ≡ true
      → gt x minus_one_f ≡ true
  unfolding Holds
  positive_next emb seen best x (inl e) h = rw (← ap (λ b. b.0) e) h
  positive_next emb seen best x (inr (k, e)) h =
      fl.gt_trans x best.0 minus_one_f h (rw (ap (λ b. b.0) e) k.positive)

  Holds-snoc :
      (emb : List F) (seen : List (CacheEntry fl)) (e : CacheEntry fl) (best : Best fl)
      → Holds emb seen best
      → Holds emb (seen ++ e ∷ []) best
  unfolding Holds
  Holds-snoc emb seen e best (inl h) = inl h
  Holds-snoc emb seen e best (inr (k, h)) = inr (
    record {
      before = k.before;
      entry = k.entry;
      after = k.after ++ e ∷ [];
      whole = ap (λ l. l ++ e ∷ []) k.whole ∙ append_assoc k.before (k.entry ∷ k.after) (e ∷ []);
      comparable = k.comparable;
      positive = k.positive;
    },
    h,
  )

  improve-BestOf :
      (emb : List F) (seen : List (CacheEntry fl)) (e : CacheEntry fl) (best : Best fl)
      → BestOf emb seen best
      → BestOf emb (seen ++ e ∷ []) (improve fl emb (length seen) e best)
  unfolding improve BestOf Holds
  improve-BestOf emb seen e best (none_above, holds) = elim (Bool-cases test) [
    | inl hit ↦
        let (same_length, beats) =
          &&-eq-true (length e.embedding == length emb) (gt sim best.0) hit in
        rw hit (
          improve_hit emb seen e best.0 none_above beats,
          inr (
            record {
              before = seen;
              entry = e;
              after = [];
              whole = refl;
              comparable = (==_iff _ _).0 same_length;
              positive = positive_next emb seen best sim holds beats;
            },
            refl,
          ),
        )
    | inr miss ↦ rw miss (
      All-append
          (λ x. (length x.embedding == length emb && gt (dot fl x.embedding emb) best.0) ≡ false)
          seen (e ∷ []) none_above (miss, tt),
      Holds-snoc emb seen e best holds,
    )
  ]
    where
      sim : F
      sim = dot fl e.embedding emb

      test : Bool
      test = length e.embedding == length emb && gt sim best.0

  best_from-BestOf :
      (emb : List F) (seen es : List (CacheEntry fl)) (best : Best fl)
      → BestOf emb seen best
      → BestOf emb (seen ++ es) (best_from fl emb (length seen) es best)
  unfolding best_from
  best_from-BestOf emb seen [] best b = rw (append-nil seen) b
  best_from-BestOf emb seen (e ∷ es) best b =
      let ih = best_from-BestOf emb (seen ++ e ∷ []) es _ (improve-BestOf emb seen e best b) in
      let here : length (seen ++ e ∷ []) ≡ suc (length seen) =
        omega (arith, length-append seen (e ∷ [])) in
      rw (append_assoc seen (e ∷ []) es, here) at ih

  touch_at-append :
      (now : ℕ) (xs : List (CacheEntry fl)) (y : CacheEntry fl) (ys : List (CacheEntry fl))
      → touch_at fl now (length xs) (xs ++ y ∷ ys) ≡ xs ++ touch fl now y ∷ ys
  unfolding touch_at
  touch_at-append now [] y ys = refl
  touch_at-append now (x ∷ xs) y ys = ap (◌∷◌ x) (touch_at-append now xs y ys)

  -- A candidate that no entry surpasses answers, or nothing does.
  abbrev pub Answer : ℕ → List F → SemanticCache fl → SemanticCache fl × Option (List ℕ) → Type 0
  Answer now emb c out =
      ((k : Candidate emb c.entries) × NoneAbove emb (dot fl k.entry.embedding emb) c.entries
        × (ge (dot fl k.entry.embedding emb) c.threshold ≡ true)
        × (out ≡ (
          record c { entries = k.before ++ touch fl now k.entry ∷ k.after },
          some k.entry.response,
        )))
      ⊎ ((out ≡ (c, none))
          × (NoneAbove emb minus_one_f c.entries
              ⊎ ((k : Candidate emb c.entries) × NoneAbove emb (dot fl k.entry.embedding emb)
                    c.entries
                  × (ge (dot fl k.entry.embedding emb) c.threshold ≡ false))))

  -- On a cache whose lock is sound, with every entry that has the length of the query's embedding
  -- taking part: either `get_similar` finds a candidate that no entry surpasses and that reaches
  -- the threshold, returns its response and sets its access time; or it changes nothing and
  -- returns nothing, and then no entry exceeds -1, or a candidate that no entry surpasses does not
  -- reach the threshold.
  pub get_similar-Answer :
      (now : ℕ) (emb : List F) (c : SemanticCache fl)
      → c.poisoned ≡ false
      → Answer now emb c (get_similar fl now emb c)
  unfolding get_similar answer_best BestOf Holds
  get_similar-Answer now emb c sound =
      let (none_above, holds) =
        best_from-BestOf emb [] c.entries (minus_one_f, none) (tt, inl refl) in
      elim holds [
        | inl e ↦
            let nothing : NoneAbove emb minus_one_f c.entries = rw e at none_above in
            elim (Bool-cases (ge minus_one_f c.threshold)) [
              | inl t ↦ inr (rw (sound, e, t), inl nothing)
              | inr t ↦ inr (rw (sound, e, t), inl nothing)
            ]
        | inr (k, e) ↦
            let most : NoneAbove emb (dot fl k.entry.embedding emb) c.entries =
              rw e at none_above in
            elim (Bool-cases (ge (dot fl k.entry.embedding emb) c.threshold)) [
              | inl t ↦ inl (
                k,
                most,
                t,
                rw (sound, e, t, k.whole, touch_at-append now k.before k.entry k.after),
              )
              | inr t ↦ inr (rw (sound, e, t), inr (k, most, t))
            ]
      ]
