-- ===== src/Common/Interleaving.antt =====
-- A server's requests over one shared state, interleaved in any order, and schedules to run them by.
-- A machine says what one request does; the program's requests are instances.
pub mod Laws
use Prim.Native.Nat.{ℕ, zero, suc}
use mathlib.Core.Path.{◌≡◌, refl, ap}
use mathlib.Core.Bool.{Bool, true, false}
use mathlib.Core.List.{List, [], ◌∷◌, ◌++◌}

-- What a request is given, where it starts, when it is at its end, what one step does at a given
-- time, and what others may do to the shared state.
pub record Machine : Type 1 where
  pub Input : Type 0
  pub Shared : Type 0
  pub Local : Type 0
  pub begin : Input → Local
  pub at_end : Local → Bool
  pub advance : ℕ → Input → Shared → Local → Shared × Local
  pub Outside : Type 0
  pub outside : Outside → Shared → Shared

module _ (m : Machine) where
  -- A request: what it was given, and where it is.
  abbrev pub Request : Type 0
  Request = m.Input × m.Local

  pub record System : Type 0 where
    pub shared : m.Shared
    pub requests : List Request

  abbrev pub opened : m.Shared → System
  opened s = record { shared = s; requests = [] }

  -- The system after a step of one of its requests.
  abbrev pub advanced : System → ℕ → List Request → m.Input → m.Local → List Request → System
  advanced s now before input pc after =
      let out = m.advance now input s.shared pc in
      record { shared = out.0; requests = before ++ ((input, out.1) ∷ after) }

  -- A request arrives; one that is not at its end takes a step; one leaves, as it was answered or
  -- as its connection was closed; or others change the shared state.
  pub data Step (s : System) : System → Type 0 where
    arrives :
        (input : m.Input) → Step s (record s { requests = (input, m.begin input) ∷ s.requests })
    advances :
        (now : ℕ) (before : List Request) (input : m.Input) (pc : m.Local) (after : List Request)
        → s.requests ≡ before ++ ((input, pc) ∷ after)
        → m.at_end pc ≡ false
        → Step s (advanced s now before input pc after)
    leaves :
        (before : List Request) (request : Request) (after : List Request)
        → s.requests ≡ before ++ (request ∷ after)
        → Step s (record s { requests = before ++ after })
    elsewhere : (o : m.Outside) → Step s (record s { shared = m.outside o s.shared })

  pub data Reach (s : m.Shared) : System → Type 0 where
    start : Reach s (opened s)
    later : {t u : System} → Reach s t → Step t u → Reach s u

  -- How many requests arrived, and how many steps were taken by any of them.
  unfoldable pub arrivals : {s : m.Shared} {t : System} → Reach s t → ℕ
  arrivals start = 0
  arrivals (later r (Step.arrives input)) = suc (arrivals r)
  arrivals (later r _) = arrivals r

  unfoldable pub turns : {s : m.Shared} {t : System} → Reach s t → ℕ
  turns start = 0
  turns (later r (Step.advances _ _ _ _ _ _ _)) = suc (turns r)
  turns (later r _) = turns r

  -- `n` steps of one request, at the times that it is given for each point.
  unfoldable pub alone : ℕ → (m.Local → ℕ) → m.Input → m.Shared → m.Local → m.Shared × m.Local
  alone zero clock input s pc = (s, pc)
  alone (suc n) clock input s pc =
      let out = m.advance (clock pc) input s pc in alone n clock input out.0 out.1

  -- What a schedule consists of.
  pub data Event : Type 0 where
    arrive : (input : m.Input) → Event
    turn : (i now : ℕ) → Event
    leave : (i : ℕ) → Event
    disturb : m.Outside → Event

  pub record Run (s : m.Shared) : Type 0 where
    pub last : System
    pub reach : Reach s last

  -- A place in the list of the requests.
  record Place (requests : List Request) : Type 0 where
    before : List Request
    input : m.Input
    pc : m.Local
    after : List Request
    whole : requests ≡ before ++ ((input, pc) ∷ after)

  abbrev behind : {r : Request} {rs : List Request} → Place rs → Place (r ∷ rs)
  behind {r} p = record {
    before = r ∷ p.before;
    input = p.input;
    pc = p.pc;
    after = p.after;
    whole = ap (◌∷◌ r) p.whole;
  }

  abbrev with_place : {A : Type 0} → (rs : List Request) → ℕ → A → (Place rs → A) → A
  with_place [] i none_there found = none_there
  with_place (r ∷ rs) zero none_there found =
      found (record { before = []; input = r.0; pc = r.1; after = rs; whole = refl })
  with_place (r ∷ rs) (suc i) none_there found = with_place rs i none_there (λ p. found (behind p))

  abbrev advance_run :
      {s : m.Shared} (r : Run s) (now : ℕ) (p : Place r.last.requests) (ended : Bool)
      → m.at_end p.pc ≡ ended
      → Run s
  advance_run r now p true h = r
  advance_run r now p false going = record {
    last = _;
    reach = later r.reach (Step.advances now p.before p.input p.pc p.after p.whole going);
  }

  abbrev occur : {s : m.Shared} → Run s → Event → Run s
  occur r (arrive input) = record { last = _; reach = later r.reach (Step.arrives input) }
  occur r (turn i now) =
      with_place r.last.requests i r (λ p. advance_run r now p (m.at_end p.pc) refl)
  occur r (leave i) = with_place r.last.requests i r (λ p. record {
    last = _;
    reach = later r.reach (Step.leaves p.before (p.input, p.pc) p.after p.whole);
  })
  occur r (disturb o) = record { last = _; reach = later r.reach (Step.elsewhere o) }

  -- A schedule, event by event; a turn of a request that is at its end or not there is no step.
  abbrev pub run_from : {s : m.Shared} → Run s → List Event → Run s
  run_from r [] = r
  run_from r (e ∷ es) = run_from (occur r e) es

  unfoldable pub run_schedule : (s : m.Shared) → List Event → Run s
  run_schedule s events = run_from (record { last = _; reach = start }) events
