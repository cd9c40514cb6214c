-- ===== src/Tests/ConcurrentTests.antt =====
-- Requests of three doors, interleaved.
use rust_enterprise_query_en.Common.{ℕ, ◌*◌, ◌≤◌, List, [], ◌∷◌, All}
use rust_enterprise_query_en.Common.Text.{codes}
use rust_enterprise_query_en.Common.Interleaving.{
  Machine, Event, Run, arrive, turn, leave, disturb, run_schedule, turns, arrivals,
}
use rust_enterprise_query_en.Engines.Cache.{new}
use rust_enterprise_query_en.Pipelines.Query.Concurrent.Cached.{Accounted}
use rust_enterprise_query_en.Pipelines.Query.Router.{Full}
use rust_enterprise_query_en.Pipelines.Query.Serving.{by_router, by_semantic, by_sql, doors}
use rust_enterprise_query_en.Pipelines.Query.Serving.Steps.{turns_bounded}
use rust_enterprise_query_en.Pipelines.Query.Serving.Safety.{Sound, IfDone, Reach-Served}
use rust_enterprise_query_en.Pipelines.Query.Serving.Cached.{Reach-Accounted}
use rust_enterprise_query_en.Tests.Concrete.{numbers, parser, engine}
use rust_enterprise_query_en.Tests.QueryTests.{services, read_back, dispatch}

abbrev machine : Machine
machine = doors dispatch

-- A server with room for two answers.
abbrev fresh : Full numbers services parser engine ℕ
fresh = record { rest = record { llm = 600; cache = new numbers 2 1 }; sql = 0 }

-- A semantic question has been looked up when a question for the router arrives and a SQL query is
-- executed; the routed question is sent to SQL, and the semantic one goes on in between. Then the
-- connection of the SQL query is closed.
abbrev traffic : List (Event machine)
traffic =
    arrive (by_semantic, codes "q")
    ∷ turn 0 1
    ∷ arrive (by_router, codes "r")
    ∷ turn 0 2
    ∷ turn 1 3
    ∷ arrive (by_sql, codes "SELECT 1")
    ∷ turn 0 4
    ∷ turn 1 5
    ∷ turn 2 6
    ∷ disturb 602
    ∷ turn 1 7
    ∷ turn 2 8
    ∷ turn 1 9
    ∷ turn 2 10
    ∷ turn 1 11
    ∷ turn 2 12
    ∷ leave 0
    ∷ turn 1 13
    ∷ turn 1 14
    ∷ []

abbrev served : Run machine fresh
served = run_schedule machine fresh traffic

Reach-Served_example :
    Sound dispatch 0 served.last.shared
    × All (λ (input, task). IfDone dispatch task) served.last.requests
unfolding new
Reach-Served_example = Reach-Served dispatch read_back tt served.reach

turns_bounded_example : turns machine served.reach ≤ 24 * arrivals machine served.reach
turns_bounded_example = turns_bounded dispatch served.reach

Reach-Accounted_example : Accounted numbers services 2 1 served.last.shared.rest.cache
Reach-Accounted_example = Reach-Accounted dispatch read_back 600 0 2 1 served.reach
