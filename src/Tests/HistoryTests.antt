-- ===== src/Tests/HistoryTests.antt =====
-- A history of calls of the cache at a concrete input.
use rust_enterprise_query_en.Common.{ℕ, List, [], ◌∷◌}
use rust_enterprise_query_en.Common.Text.{codes}
use rust_enterprise_query_en.Engines.Cache.{new}
use rust_enterprise_query_en.Engines.Cache.History.{
  Call, exact, similar, put, run, note_all, Refines, Explained, run-new-Refines,
}
use rust_enterprise_query_en.Tests.Concrete.{numbers}

-- Two insertions in a cache of one entry, then a lookup of each kind.
abbrev calls : List (Call ℕ)
calls =
    put 1 (record { query = codes "one"; embedding = 1 ∷ 0 ∷ []; response = 7 ∷ [] })
    ∷ put 2 (record { query = codes "two"; embedding = 0 ∷ 1 ∷ []; response = 8 ∷ [] })
    ∷ exact 3 (codes " TWO")
    ∷ similar 4 (0 ∷ 1 ∷ [])
    ∷ []

run-new-Refines_example :
    Refines numbers (note_all numbers [] calls) (run numbers (new numbers 1 1) calls).0
    × Explained numbers 1 [] calls (run numbers (new numbers 1 1) calls).1
run-new-Refines_example = run-new-Refines numbers 1 1 calls
