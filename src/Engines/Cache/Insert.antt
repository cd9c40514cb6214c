-- ===== src/Engines/Cache/Insert.antt =====
-- `insert` of src/engines/cache.rs: the bound on the entries, and which entry is evicted.
use Prim.Native.Nat.{max}
use rust_enterprise_query_en.Common.{
  ℕ, suc, ◌+◌, ◌≤◌, ◌<◌, false, List, [], ◌∷◌, ◌++◌, ◌≡◌, refl, ap, ◌⊎◌, inl, inr, Bool-cases, All,
  All-append, All-map, append-nil, append_assoc, arith, if◌then◌else◌, ltb, length, remove_at,
  length-append, ltb→lt, ltb_false→le, ◌∙◌,
}
use native.Mathlib.Decide.{dec_le}
use rust_enterprise_query_en.Common.Text.{Text}
use rust_enterprise_query_en.Common.Floats.{Floats}
use rust_enterprise_query_en.Engines.Cache.{
  CacheEntry, SemanticCache, entry_of, oldest_from, oldest, evict_oldest, make_room, insert,
}

module _ (fl : Floats) where
  -- The first least recently used entry, with what stands before and behind it.
  pub record Oldest (es : List (CacheEntry fl)) : Type 0 where
    pub before : List (CacheEntry fl)
    pub victim : CacheEntry fl
    pub after : List (CacheEntry fl)
    pub whole : es ≡ before ++ (victim ∷ after)
    pub least : All (λ e. victim.last_accessed ≤ e.last_accessed) es
    pub first : All (λ e. victim.last_accessed < e.last_accessed) before

  remove_at-append :
      (xs : List (CacheEntry fl)) (y : CacheEntry fl) (ys : List (CacheEntry fl))
      → remove_at (length xs) (xs ++ (y ∷ ys)) ≡ xs ++ ys
  remove_at-append [] y ys = refl
  remove_at-append (x ∷ xs) y ys = ap (◌∷◌ x) (remove_at-append xs y ys)

  -- What the scan has established after `seen`.
  At : List (CacheEntry fl) → ℕ × ℕ → Type 0
  At seen best = (o : Oldest seen) × (best.0 ≡ length o.before) × (best.1 ≡ o.victim.last_accessed)

  At-snoc :
      (seen : List (CacheEntry fl)) (best : ℕ × ℕ) (e : CacheEntry fl)
      → At seen best
      → At
          (seen ++ (e ∷ []))
          (if ltb e.last_accessed best.1 then (length seen, e.last_accessed) else best)
  unfolding At
  At-snoc seen best e (o, index, time) = elim (Bool-cases (ltb e.last_accessed best.1)) [
    | inl older ↦
        let lt : e.last_accessed < o.victim.last_accessed = omega (arith, ltb→lt _ _ older) in
        rw older (
          record {
            before = seen;
            victim = e;
            after = [];
            whole = refl;
            least =
                All-append (λ x. e.last_accessed ≤ x.last_accessed) seen (e ∷ [])
                  (All-map seen (λ x h. omega arith) o.least) (omega arith);
            first = All-map seen (λ x h. omega arith) o.least;
          },
          refl,
          refl,
        )
    | inr newer ↦
        let le : o.victim.last_accessed ≤ e.last_accessed = omega (arith, ltb_false→le _ _ newer) in
        rw newer (
          record {
            before = o.before;
            victim = o.victim;
            after = o.after ++ (e ∷ []);
            whole =
                ap (λ l. l ++ (e ∷ [])) o.whole
                ∙ append_assoc o.before (o.victim ∷ o.after) (e ∷ []);
            least =
                All-append (λ x. o.victim.last_accessed ≤ x.last_accessed) seen (e ∷ []) o.least
                  (le, tt);
            first = o.first;
          },
          index,
          time,
        )
  ]

  oldest_from-At :
      (seen es : List (CacheEntry fl)) (best : ℕ × ℕ)
      → At seen best
      → At (seen ++ es) (oldest_from fl (length seen) best es)
  unfolding oldest_from
  oldest_from-At seen [] best a = rw (append-nil seen) a
  oldest_from-At seen (e ∷ es) best a =
      let ih = oldest_from-At (seen ++ (e ∷ [])) es _ (At-snoc seen best e a) in
      let here : length (seen ++ (e ∷ [])) ≡ suc (length seen) =
        omega (arith, length-append seen (e ∷ [])) in
      rw (append_assoc seen (e ∷ []) es, here) at ih

  oldest-At :
      (e : CacheEntry fl) (es : List (CacheEntry fl))
      → At (e ∷ es) (oldest_from fl 1 (0, e.last_accessed) es)
  unfolding At
  oldest-At e es =
      oldest_from-At (e ∷ []) es (0, e.last_accessed)
        (
          record {
            before = [];
            victim = e;
            after = [];
            whole = refl;
            least = omega arith;
            first = tt;
          },
          refl,
          refl,
        )

  make_room_full :
      (cap : ℕ) (e : CacheEntry fl) (es : List (CacheEntry fl))
      → cap ≤ length (e ∷ es)
      → (o : Oldest (e ∷ es)) × (make_room fl cap (e ∷ es) ≡ o.before ++ o.after)
  unfolding make_room oldest evict_oldest At
  make_room_full cap e es full =
      let (o, index, time) = oldest-At e es in
      (
        o,
        ground (
          arith,
          index,
          ap (remove_at (length o.before)) o.whole,
          remove_at-append o.before o.victim o.after,
        ),
      )

  pub make_room_room :
      (cap : ℕ) (es : List (CacheEntry fl))
      → (length es < cap) ⊎ (es ≡ [])
      → make_room fl cap es ≡ es
  unfolding make_room
  make_room_room cap [] h = ground arith
  make_room_room cap (e ∷ es) (inl h) = ground arith
  make_room_room cap (e ∷ es) (inr h) = cc

  pub full_make_room :
      (cap : ℕ) (es : List (CacheEntry fl))
      → cap ≤ length es
      → 0 < length es
      → (o : Oldest es) × (make_room fl cap es ≡ o.before ++ o.after)
  full_make_room cap [] h k = absurd (omega arith)
  full_make_room cap (e ∷ es) h k = make_room_full cap e es h

  -- On a full cache that is not empty `insert` removes exactly one entry, the first of those that
  -- were used least recently, keeps the others in order, and appends the new entry.
  pub insert-Oldest :
      (now : ℕ) (query : Text) (emb : List fl.F) (response : List ℕ) (c : SemanticCache fl)
      → c.poisoned ≡ false
      → c.capacity ≤ length c.entries
      → 0 < length c.entries
      → (o : Oldest c.entries) × (insert fl now query emb response c
          ≡ record c { entries = (o.before ++ o.after) ++ entry_of fl now query emb response ∷ [] })
  unfolding insert
  insert-Oldest now query emb response c sound full some_entry =
      let (o, room) = full_make_room c.capacity c.entries full some_entry in (o, rw (sound, room))

  length-make_room :
      (cap : ℕ) (es : List (CacheEntry fl))
      → length es ≤ max cap 1
      → length (make_room fl cap es) + 1 ≤ max cap 1
  length-make_room cap [] h = rw (make_room_room cap [] (inr refl)) (omega arith)
  length-make_room cap (e ∷ es) h = elim (dec_le cap (length (e ∷ es))) [
    | yes full ↦
        let (o, room) = make_room_full cap e es full in
        let whole : length (e ∷ es) ≡ length (o.before ++ (o.victim ∷ o.after)) =
          ap length o.whole in
        rw room (
          omega (
            arith,
            whole,
            length-append o.before (o.victim ∷ o.after),
            length-append o.before o.after,
          ))
    | no room ↦ rw (make_room_room cap (e ∷ es) (inl (omega arith))) (omega arith)
  ]

  -- `insert` never exceeds the capacity, or one entry where the capacity is 0.
  pub length-insert :
      (now : ℕ) (query : Text) (emb : List fl.F) (response : List ℕ) (c : SemanticCache fl)
      → length c.entries ≤ max c.capacity 1
      → length (insert fl now query emb response c).entries ≤ max c.capacity 1
  unfolding insert
  length-insert now query emb response c h = elim (Bool-cases c.poisoned) [
    | inl bad ↦ rw bad h
    | inr sound ↦ rw sound (
        omega (
          arith,
          length-append (make_room fl c.capacity c.entries)
              (entry_of fl now query emb response ∷ []),
          length-make_room c.capacity c.entries h,
        ))
  ]
