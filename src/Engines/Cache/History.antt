-- ===== src/Engines/Cache/History.antt =====
-- Any sequence of calls of src/engines/cache.rs, as concurrent requests make them under the lock,
-- against an abstract cache: the log of what was inserted.
use Prim.Native.Nat.{max}
use mathlib.Core.List.{Memᴰ, Sublistᴰ}
use mathlib.Core.List.Sublistᴰ
use native.Mathlib.Decide.{dec_le}
use rust_enterprise_query_en.Common.{
  ℕ, suc, ◌≤◌, true, false, List, [], ◌∷◌, ◌++◌, map, Option, none, some, ◌≡◌, refl, sym, ap, inl,
  inr, arith, length,
}
use mathlib.Core.Path.{subst}
use rust_enterprise_query_en.Common.Members.{Memᴰ_of_sublist, sublist-snoc}
use rust_enterprise_query_en.Common.Text.{Text}
use rust_enterprise_query_en.Common.Floats.{Floats}
use rust_enterprise_query_en.Engines.Cache.{
  CacheEntry, SemanticCache, new, touch, dot, entry_of, get_exact, get_similar, make_room, insert,
}
use rust_enterprise_query_en.Engines.Cache.Exact.{key_of, get_exact-FirstMatch}
use rust_enterprise_query_en.Engines.Cache.Insert.{length-insert, full_make_room, make_room_room}
use rust_enterprise_query_en.Engines.Cache.Similar.{get_similar-Answer}

-- What a call inserts.
pub record Inserted (F : Type 0) : Type 0 where
  pub query : Text
  pub embedding : List F
  pub response : List ℕ

-- The calls, each with the time it reads from the clock.
pub data Call (F : Type 0) : Type 0 where
  exact : (now : ℕ) (query : Text) → Call F
  similar : (now : ℕ) (embedding : List F) → Call F
  put : (now : ℕ) → Inserted F → Call F

module _ (fl : Floats) where
  open fl use {F, ge}

  -- The cache after a call, and what the call returns.
  unfoldable pub step : SemanticCache fl → Call F → SemanticCache fl × Option (List ℕ)
  step c (exact now query) = get_exact fl now query c
  step c (similar now embedding) = get_similar fl now embedding c
  step c (put now i) = (insert fl now i.query i.embedding i.response c, none)

  unfoldable pub run : SemanticCache fl → List (Call F) → SemanticCache fl × List (Option (List ℕ))
  run c [] = (c, [])
  run c (call ∷ calls) = let rest = run (step c call).0 calls in (rest.0, (step c call).1 ∷ rest.1)

  -- The log after a call.
  abbrev pub note : List (Inserted F) → Call F → List (Inserted F)
  note log (put now i) = log ++ i ∷ []
  note log _ = log

  abbrev pub note_all : List (Inserted F) → List (Call F) → List (Inserted F)
  note_all log [] = log
  note_all log (call ∷ calls) = note_all (note log call) calls

  -- What may be answered where the log is given: a response that was inserted under a query with
  -- the same key, or with an embedding that reaches the threshold.
  abbrev pub IsAnswer : F → List (Inserted F) → Call F → List ℕ → Type 0
  IsAnswer threshold log (exact now query) response =
      (i : Inserted F) × Memᴰ i log × (key_of i.query ≡ key_of query) × (i.response ≡ response)
  IsAnswer threshold log (similar now embedding) response =
      (i : Inserted F) × Memᴰ i log
      × (length i.embedding ≡ length embedding)
      × (ge (dot fl i.embedding embedding) threshold ≡ true)
      × (i.response ≡ response)
  IsAnswer threshold log (put now i) response = ⊥

  abbrev pub IfAnswered : F → List (Inserted F) → Call F → Option (List ℕ) → Type 0
  IfAnswered threshold log call none = Unit
  IfAnswered threshold log call (some response) = IsAnswer threshold log call response

  -- Every answer of a run is one that the log at its call allows.
  abbrev pub Explained : F → List (Inserted F) → List (Call F) → List (Option (List ℕ)) → Type 0
  Explained threshold log [] [] = Unit
  Explained threshold log (call ∷ calls) (a ∷ answers) =
      IfAnswered threshold log call a × Explained threshold (note log call) calls answers
  Explained threshold log _ _ = ⊥

  -- An entry without its time.
  abbrev pub stored : CacheEntry fl → Inserted F
  stored e = record { query = e.query; embedding = e.embedding; response = e.response }

  -- The cache holds some of what was inserted, in the order of insertion, and no more than it may.
  pub record Refines (log : List (Inserted F)) (c : SemanticCache fl) : Type 0 where
    pub kept : Sublistᴰ (map stored c.entries) log
    pub bounded : length c.entries ≤ max c.capacity 1
    pub sound : c.poisoned ≡ false

  stored-touch :
      (now : ℕ) (before : List (CacheEntry fl)) (e : CacheEntry fl) (after : List (CacheEntry fl))
      → map stored (before ++ (touch fl now e ∷ after)) ≡ map stored (before ++ (e ∷ after))
  stored-touch now [] e after = refl
  stored-touch now (b ∷ before) e after = ap (◌∷◌ (stored b)) (stored-touch now before e after)

  stored-snoc :
      (es : List (CacheEntry fl)) (e : CacheEntry fl)
      → map stored (es ++ e ∷ []) ≡ map stored es ++ stored e ∷ []
  stored-snoc [] e = refl
  stored-snoc (x ∷ es) e = ap (◌∷◌ (stored x)) (stored-snoc es e)

  stored_mem :
      (before : List (CacheEntry fl)) (e : CacheEntry fl) (after : List (CacheEntry fl))
      → Memᴰ (stored e) (map stored (before ++ (e ∷ after)))
  stored_mem [] e after = Memᴰ.head refl
  stored_mem (b ∷ before) e after = Memᴰ.tail (stored_mem before e after)

  stored_without :
      (before : List (CacheEntry fl)) (e : CacheEntry fl) (after : List (CacheEntry fl))
      → Sublistᴰ (map stored (before ++ after)) (map stored (before ++ (e ∷ after)))
  stored_without [] e after = Sublistᴰ.cons (Sublistᴰ.refl (map stored after))
  stored_without (b ∷ before) e after = Sublistᴰ.cons-cons refl (stored_without before e after)

  make_room-sublist :
      (cap : ℕ) (es : List (CacheEntry fl))
      → Sublistᴰ (map stored (make_room fl cap es)) (map stored es)
  make_room-sublist cap [] = rw (make_room_room fl cap [] (inr refl)) Sublistᴰ.slnil
  make_room-sublist cap (e ∷ es) = elim (dec_le cap (length (e ∷ es))) [
    | no room ↦
        rw (make_room_room fl cap (e ∷ es) (inl (omega arith)))
          (Sublistᴰ.refl (map stored (e ∷ es)))
    | yes full ↦
        let (o, made) = full_make_room fl cap (e ∷ es) full (omega arith) in
        subst (λ xs. Sublistᴰ (map stored xs) (map stored (e ∷ es))) (sym made)
          (subst (λ xs. Sublistᴰ (map stored (o.before ++ o.after)) (map stored xs)) (sym o.whole)
            (stored_without o.before o.victim o.after))
  ]

  length_touched :
      (now : ℕ) (before : List (CacheEntry fl)) (e : CacheEntry fl) (after : List (CacheEntry fl))
      → length (before ++ (touch fl now e ∷ after)) ≡ length (before ++ (e ∷ after))
  length_touched now [] e after = refl
  length_touched now (b ∷ before) e after = ap suc (length_touched now before e after)

  -- An access changes a time only.
  touched-Refines :
      (now : ℕ) (before : List (CacheEntry fl)) (e : CacheEntry fl) (after : List (CacheEntry fl))
      (log : List (Inserted F)) (c : SemanticCache fl)
      → c.entries ≡ before ++ (e ∷ after)
      → Refines log c
      → Refines log (record c { entries = before ++ (touch fl now e ∷ after) })
        × Memᴰ (stored e) log
  touched-Refines now before e after log c whole r =
      let kept = subst (λ es. Sublistᴰ (map stored es) log) whole r.kept in
      (
        record {
          kept = rw (stored-touch now before e after) kept;
          bounded = rw (length_touched now before e after, ← whole) r.bounded;
          sound = r.sound;
        },
        Memᴰ_of_sublist kept (stored_mem before e after),
      )

  insert_sound :
      (now : ℕ) (i : Inserted F) (c : SemanticCache fl)
      → c.poisoned ≡ false
      → insert fl now i.query i.embedding i.response c ≡ record c {
        entries =
            make_room fl c.capacity c.entries
            ++ entry_of fl now i.query i.embedding i.response ∷ [];
      }
  unfolding insert
  insert_sound now i c sound = rw sound refl

  step-Refines :
      (log : List (Inserted F)) (c : SemanticCache fl) (call : Call F)
      → Refines log c
      → Refines (note log call) (step c call).0
        × IfAnswered c.threshold log call (step c call).1
        × ((step c call).0.threshold ≡ c.threshold)
  unfolding step
  step-Refines log c (exact now query) r = elim (get_exact-FirstMatch fl now query c r.sound) [
    | inl (_, same) ↦ rw same (r, tt, refl)
    | inr (m, same) ↦
        let (after, there) = touched-Refines now m.before m.entry m.after log c m.whole r in
        rw same (after, (stored m.entry, there, m.matched, refl), refl)
  ]
  step-Refines log c (similar now embedding) r =
      elim (get_similar-Answer fl now embedding c r.sound) [
        | inl (k, _, reached, same) ↦
            let (after, there) = touched-Refines now k.before k.entry k.after log c k.whole r in
            rw same (after, (stored k.entry, there, k.comparable, reached, refl), refl)
        | inr (same, _) ↦ rw same (r, tt, refl)
      ]
  step-Refines log c (put now i) r = (
    record {
      kept =
          rw
            (
              insert_sound now i c r.sound,
              stored-snoc (make_room fl c.capacity c.entries)
                  (entry_of fl now i.query i.embedding i.response),
            )
            (sublist-snoc i (Sublistᴰ.trans (make_room-sublist c.capacity c.entries) r.kept));
      bounded =
          rw (ap (λ (x : SemanticCache fl). x.capacity) (insert_sound now i c r.sound))
            (length-insert fl now i.query i.embedding i.response c r.bounded);
      sound = rw (insert_sound now i c r.sound) r.sound;
    },
    tt,
    rw (insert_sound now i c r.sound) refl,
  )

  run-Refines :
      (log : List (Inserted F)) (c : SemanticCache fl) (calls : List (Call F))
      → Refines log c
      → Refines (note_all log calls) (run c calls).0
        × Explained c.threshold log calls (run c calls).1
  unfolding run
  run-Refines log c [] r = (r, tt)
  run-Refines log c (call ∷ calls) r =
      let (after, answer, same) = step-Refines log c call r in
      let (final, answers) = run-Refines (note log call) (step c call).0 calls after in
      (
        final,
        (
          answer,
          subst (λ t. Explained t (note log call) calls (run (step c call).0 calls).1) same answers,
        ),
      )

  -- Whatever the calls of a new cache are, it ends with some of what they inserted, in the order
  -- of insertion, in no more entries than the larger of its capacity and one. And each answer is
  -- a response inserted before the call that got it: for an exact lookup under a query with the
  -- same key, for a similar lookup with an embedding of the same length whose dot product reaches
  -- the threshold.
  pub run-new-Refines :
      (capacity : ℕ) (threshold : F) (calls : List (Call F))
      → Refines (note_all [] calls) (run (new fl capacity threshold) calls).0
        × Explained threshold [] calls (run (new fl capacity threshold) calls).1
  unfolding new
  run-new-Refines capacity threshold calls =
      run-Refines [] (new fl capacity threshold) calls
        (record { kept = Sublistᴰ.slnil; bounded = omega arith; sound = refl })
