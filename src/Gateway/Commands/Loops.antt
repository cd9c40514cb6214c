-- ===== src/Gateway/Commands/Loops.antt =====
-- The loops over the queries in src/gateway/mod.rs: what every round keeps holds at the end.
use rust_enterprise_query_en.Common.{List, [], ◌∷◌, Result, ok, err, ◌≡◌, Result-cases, inl, inr}
use rust_enterprise_query_en.Common.Text.{Text}
use rust_enterprise_query_en.Gateway.Cli.{CliError}
use rust_enterprise_query_en.Gateway.Commands.{Process, Step, for_each}

module _ (p : Process) {S : Type 0} (body : S → Text → Step p S (Unit {0})) where
  -- What holds before each round, and what holds after a round even if it fails.
  pub for_each-keeps :
      (Before After : S → Type 0)
      → ((s : S) → Before s → After s)
      → ((s : S) (q : Text)
          → Before s
          → After (body s q).0 × ((body s q).1 ≡ ok tt → Before (body s q).0))
      → (queries : List (Result (CliError p.InputError) Text)) (s : S) → Before s
      → After (for_each p body s queries).0
  unfolding for_each
  for_each-keeps Before After weaken round [] s before = weaken s before
  for_each-keeps Before After weaken round (err e ∷ queries) s before = weaken s before
  for_each-keeps Before After weaken round (ok q ∷ queries) s before =
      elim (Result-cases (body s q).1) [
        | inr (e, failed) ↦ rw failed (round s q before).0
        | inl (u, done) ↦ rw done (
            for_each-keeps Before After weaken round queries (body s q).0
              ((round s q before).1 done))
      ]
