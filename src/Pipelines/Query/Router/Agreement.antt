-- ===== src/Pipelines/Query/Router/Agreement.antt =====
-- The two dispatchers, of src/pipelines/query/mod.rs and src/pipelines/query/router.rs, side by side.
use rust_enterprise_query_en.Common.{
  if◌then◌else◌, ◌⊎◌, Bool, true, false, Result, ok, ◌>>=◌, ◌≡◌, refl, inl, inr,
}
use rust_enterprise_query_en.Common.Text.{Text, codes, text_eq}
use rust_enterprise_query_en.Common.Floats.{Floats}
use rust_enterprise_query_en.Engines.AstGuard.{SqlParser}
use rust_enterprise_query_en.Engines.Sql.{SqlEngine}
use rust_enterprise_query_en.Pipelines.Types.{RouterDecision, SemanticQueryResult}
use rust_enterprise_query_en.Pipelines.Firewall.{parse_llm_json}
use rust_enterprise_query_en.Pipelines.Prompts.{build_routing_prompt}
use rust_enterprise_query_en.Pipelines.Query.{Services, Times}
use rust_enterprise_query_en.Pipelines.Query.Router.{
  Dispatch, Full, Answer, DispatchError, QueryOutput, RoutedQueryResult, semantic_result,
  semantic_output, ask, semantic, run_sql_query, execute_routed_sql, route_of, dispatch_routed,
  run_routed_pipeline, classify_intent, output_lines, dispatch_query, uppercase_is_sql,
  run_query_pipeline,
}

module _ {fl : Floats} {services : Services fl} {parser : SqlParser} {engine : SqlEngine}
    {V : Type 0} (d : Dispatch fl services parser engine V) where
  -- What each dispatcher does once the decision is known.
  routed_then :
      (times : Times) (query raw : Text) (s : Full fl services parser engine V)
      (decision : RouterDecision)
      → (ask d (build_routing_prompt query) s).1 ≡ ok raw
      → parse_llm_json d.decision_from_str raw ≡ ok decision
      → run_routed_pipeline d times query s ≡ (
          if text_eq decision.route (codes "SQL")
          then execute_routed_sql d query (ask d (build_routing_prompt query) s).0
          else semantic d times semantic_result query (ask d (build_routing_prompt query) s).0)
  unfolding run_routed_pipeline dispatch_routed route_of
  routed_then times query raw s decision asked parsed =
      rw (asked, dispatch_routed, route_of, parsed) refl

  query_then :
      (times : Times) (query raw : Text) (s : Full fl services parser engine V)
      (decision : RouterDecision)
      → (ask d (build_routing_prompt query) s).1 ≡ ok raw
      → parse_llm_json d.decision_from_str raw ≡ ok decision
      → run_query_pipeline d times query s ≡ (
          if uppercase_is_sql decision.route
          then output_lines d (run_sql_query d query (ask d (build_routing_prompt query) s).0)
          else semantic d times semantic_output query (ask d (build_routing_prompt query) s).0)
  unfolding run_query_pipeline classify_intent dispatch_query
  query_then times query raw s decision asked parsed = rw (asked, parsed) refl

  -- Two outcomes agree: the states are the same, and so are the results of the semantic pipeline,
  -- unless the route is SQL.
  abbrev pub Agree : Bool → Answer d (RoutedQueryResult V) → Answer d QueryOutput → Type 0
  Agree is_sql (s, routed) (t, answered) =
      (s ≡ t)
      × ((is_sql ≡ true)
          ⊎ ((r : Result (DispatchError fl services parser engine V) SemanticQueryResult) × (routed
                ≡ (r >>= λ res. ok (semantic_result res)))
              × (answered ≡ (r >>= λ res. ok (semantic_output res)))))

  branches-Agree :
      (times : Times) (query : Text) (s : Full fl services parser engine V) (is_sql : Bool)
      → Agree is_sql
          (if is_sql
            then execute_routed_sql d query s
            else semantic d times semantic_result query s)
          (if is_sql
            then output_lines d (run_sql_query d query s)
            else semantic d times semantic_output query s)
  unfolding execute_routed_sql output_lines semantic
  branches-Agree times query s true = (refl, inl refl)
  branches-Agree times query s false = (refl, inr (_, refl, refl))

  -- If the language model answers the routing prompt with a decision that parses, and its route is
  -- `SQL` exactly where its upper case is, then both dispatchers leave the client, the cache and the
  -- SQL engine in the same state, and, unless the route is `SQL`, return the same result or failure
  -- of the semantic pipeline.
  pub dispatchers-Agree :
      (times : Times) (query raw : Text) (s : Full fl services parser engine V)
      (decision : RouterDecision)
      → (ask d (build_routing_prompt query) s).1 ≡ ok raw
      → parse_llm_json d.decision_from_str raw ≡ ok decision
      → text_eq decision.route (codes "SQL") ≡ uppercase_is_sql decision.route
      → Agree
          (uppercase_is_sql decision.route)
          (run_routed_pipeline d times query s)
          (run_query_pipeline d times query s)
  dispatchers-Agree times query raw s decision asked parsed same =
      rw
        (
          routed_then times query raw s decision asked parsed,
          query_then times query raw s decision asked parsed,
          same,
        )
        (branches-Agree times query (ask d (build_routing_prompt query) s).0
          (uppercase_is_sql decision.route))
