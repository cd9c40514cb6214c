-- ===== src/Common/Interleaving/Laws.antt =====
-- Invariants of interleaved requests, and the steps that they take.
use rust_enterprise_query_en.Common.Lists.{All, All-append, All-split}
use Prim.Native.Nat.{ℕ, zero, suc, ◌+◌, ◌*◌, ◌≤◌, ◌<◌}
use mathlib.Core.Path.{◌≡◌, refl, sym, ap, ◌∙◌, subst}
use mathlib.Core.Logic.{◌⊎◌, inl, inr}
use mathlib.Core.Bool.{false}
use mathlib.Core.List.{List, [], ◌∷◌, ◌++◌}
use native.Mathlib.Omega.{arith}
use rust_enterprise_query_en.Common.Interleaving.{
  Machine, Request, System, Step, Reach, start, later, arrivals, turns, alone,
}

module _ (m : Machine) where
  -- What every step keeps of the shared state and of the request that takes it holds in every state
  -- that is reached.
  module _ (P : m.Shared → Type 0) (Q : m.Input → m.Local → Type 0)
      (begins : (input : m.Input) → Q input (m.begin input))
      (steps : (now : ℕ) (input : m.Input) (s : m.Shared) (pc : m.Local)
        → P s
        → Q input pc
        → (let out = m.advance now input s pc in P out.0 × Q input out.1))
      (others : (o : m.Outside) (s : m.Shared) → P s → P (m.outside o s)) where
    abbrev pub AllRequests : List (Request m) → Type 0
    AllRequests = All (λ (input, pc). Q input pc)

    pub Reach-keeps :
        {s : m.Shared} {t : System m} → P s → Reach m s t → P t.shared × AllRequests t.requests
    Reach-keeps p start = (p, tt)
    Reach-keeps p (later r (Step.arrives input)) =
        let (kept, all) = Reach-keeps p r in (kept, (begins input, all))
    Reach-keeps p (later {t} r (Step.advances now before input pc after whole going)) =
        let (kept, all) = Reach-keeps p r in
        let (l, (here, rest)) =
          All-split (λ (i, l). Q i l) before ((input, pc) ∷ after) (subst AllRequests whole all) in
        let (kept', here') = steps now input t.shared pc kept here in
        (kept', All-append (λ (i, l). Q i l) before _ l (here', rest))
    Reach-keeps p (later r (Step.leaves before request after whole)) =
        let (kept, all) = Reach-keeps p r in
        let (l, (here, rest)) =
          All-split (λ (i, l). Q i l) before (request ∷ after) (subst AllRequests whole all) in
        (kept, All-append (λ (i, l). Q i l) before after l rest)
    Reach-keeps p (later {t} r (Step.elsewhere o)) =
        let (kept, all) = Reach-keeps p r in (others o t.shared kept, all)

  -- A measure that every step of a request brings down bounds the steps of all requests.
  module _ (remaining : m.Local → ℕ) (limit : ℕ)
      (limited : (input : m.Input) → remaining (m.begin input) ≤ limit)
      (nearer : (now : ℕ) (input : m.Input) (s : m.Shared) (pc : m.Local)
        → m.at_end pc ≡ false
        → remaining (m.advance now input s pc).1 < remaining pc) where
    -- The steps that the requests have left, at most.
    work : List (Request m) → ℕ
    work [] = 0
    work ((input, pc) ∷ rs) = remaining pc + work rs

    work_at :
        (xs : List (Request m)) (input : m.Input) (pc : m.Local) (ys : List (Request m))
        → work (xs ++ ((input, pc) ∷ ys)) ≡ remaining pc + work (xs ++ ys)
    unfolding work
    work_at [] input pc ys = refl
    work_at ((_, pc') ∷ xs) input pc ys = let rest = work_at xs input pc ys in omega arith

    -- Every request brings the steps that its arrival pays for.
    paid :
        {s : m.Shared} {t : System m} (r : Reach m s t)
        → turns m r + work t.requests ≤ limit * arrivals m r
    unfolding turns arrivals work
    paid start = omega arith
    paid (later r (Step.arrives input)) =
        let bound = paid r in let brought = limited input in grind arith
    paid (later {t} r (Step.advances now before input pc after whole going)) =
        let bound = paid r in
        let closer = nearer now input t.shared pc going in
        let out = m.advance now input t.shared pc in
        let stepped = work_at before input out.1 after in
        let stood = ap work whole ∙ work_at before input pc after in omega arith
    paid (later r (Step.leaves before (input, pc) after whole)) =
        let bound = paid r in
        let stood = ap work whole ∙ work_at before input pc after in omega arith
    paid (later r (Step.elsewhere o)) = let bound = paid r in omega arith

    pub turns-arrivals :
        {s : m.Shared} {t : System m} (r : Reach m s t) → turns m r ≤ limit * arrivals m r
    turns-arrivals r = let bound = paid r in omega arith

    -- A request that no other interrupts ends with what is left to do for it, if a step leaves the
    -- same to do and its end is what is done.
    module _ {R : Type 0} (clock : m.Local → ℕ) (input : m.Input)
        (rest : m.Shared → m.Local → m.Shared × R) (ended : R → m.Local)
        (same : (s : m.Shared) (pc : m.Local)
          → (let out = m.advance (clock pc) input s pc in rest out.0 out.1 ≡ rest s pc))
        (end_or : (pc : m.Local) → ((r : R) × (pc ≡ ended r)) ⊎ (m.at_end pc ≡ false))
        (stays : (s : m.Shared) (r : R)
          → (m.advance (clock (ended r)) input s (ended r) ≡ (s, ended r))
            × (rest s (ended r) ≡ (s, r))) where
      alone-ended :
          (n : ℕ) (s : m.Shared) (r : R) → alone m n clock input s (ended r) ≡ (s, ended r)
      unfolding alone
      alone-ended zero s r = refl
      alone-ended (suc n) s r =
          subst (λ o. alone m n clock input o.0 o.1 ≡ (s, ended r)) (sym (stays s r).0)
            (alone-ended n s r)

      pub alone-rest :
          (n : ℕ) (s : m.Shared) (pc : m.Local)
          → remaining pc ≤ n
          → alone m n clock input s pc ≡ ((rest s pc).0, ended (rest s pc).1)
      unfolding alone
      alone-rest zero s pc h = elim (end_or pc) [
        | inl (r, e) ↦ rw (e, (stays s r).1) refl
        | inr going ↦ let closer = nearer (clock pc) input s pc going in absurd (omega arith)
      ]
      alone-rest (suc n) s pc h = elim (end_or pc) [
        | inl (r, e) ↦ rw (e, (stays s r).1) (alone-ended (suc n) s r)
        | inr going ↦
            let closer = nearer (clock pc) input s pc going in
            let out = m.advance (clock pc) input s pc in
            subst (λ o. alone m n clock input out.0 out.1 ≡ (o.0, ended o.1)) (same s pc)
              (alone-rest n out.0 out.1 (omega arith))
      ]
