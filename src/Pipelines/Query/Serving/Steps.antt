-- ===== src/Pipelines/Query/Serving/Steps.antt =====
-- How many steps a request of src/gateway/http/routes.rs or src/gateway/grpc/service.rs takes at most.
use rust_enterprise_query_en.Common.{
  ℕ, zero, suc, ◌+◌, ◌*◌, ◌≤◌, ◌<◌, false, Result, ok, err, ◌≡◌, refl, ◌⊎◌, inl, inr, arith,
  Result-cases, if_keeps,
}
use rust_enterprise_query_en.Common.Text.{Text, codes, text_eq}
use rust_enterprise_query_en.Common.Floats.{Floats}
use rust_enterprise_query_en.Common.Interleaving.{System, Reach, arrivals, turns}
use rust_enterprise_query_en.Common.Interleaving.Laws.{turns-arrivals}
use rust_enterprise_query_en.Engines.AstGuard.{SqlParser}
use rust_enterprise_query_en.Engines.Sql.{SqlEngine}
use rust_enterprise_query_en.Pipelines.Firewall.{parse_llm_json}
use rust_enterprise_query_en.Pipelines.Ollama.{LlmError, unreachable, read_response}
use rust_enterprise_query_en.Pipelines.Query.{Services}
use rust_enterprise_query_en.Pipelines.Query.Concurrent.{
  Pc, begun, asking, sending, comparing, storing, finished, advance,
}
use rust_enterprise_query_en.Pipelines.Query.Concurrent.Steps as Inner
use rust_enterprise_query_en.Pipelines.Query.Concurrent.Steps.{finished_or, advance-remaining}
use rust_enterprise_query_en.Pipelines.Query.Router.{Dispatch, Full, route_of}
use rust_enterprise_query_en.Pipelines.Query.Serving.{
  Door, by_router, by_semantic, by_sql, RouterPurpose, to_route, to_write_sql, Wrap, as_result,
  router_prompt, Task, Reply, prompting, posting, executing_generated, executing, inside, done,
  prompt, enter, after_prompt, after_post, begin, progress, is_done, doors,
}

module _ {fl : Floats} {services : Services fl} {parser : SqlParser} {engine : SqlEngine}
    {V : Type 0} (d : Dispatch fl services parser engine V) where
  open services use {client}

  -- An upper bound of the steps that are left after the reply.
  unfoldable pub after_of : RouterPurpose → ℕ
  after_of to_route = 19
  after_of to_write_sql = 1

  -- An upper bound of the steps that are left.
  unfoldable pub remaining : Task d → ℕ
  remaining (prompting purpose attempt left last_err) = after_of purpose + 2 * left + 1
  remaining (posting purpose attempt left last_err) = after_of purpose + 2 * left + 2
  remaining (executing_generated generated_sql) = 1
  remaining executing = 1
  remaining (inside wrap pc) = suc (Inner.remaining fl services pc)
  remaining (done reply) = 0

  pub done_or : (t : Task d) → ((r : Reply d) × (t ≡ done r)) ⊎ (is_done d t ≡ false)
  done_or (done reply) = inl (reply, refl)
  done_or (prompting purpose attempt left last_err) = inr refl
  done_or (posting purpose attempt left last_err) = inr refl
  done_or (executing_generated generated_sql) = inr refl
  done_or executing = inr refl
  done_or (inside wrap pc) = inr refl

  enter-remaining :
      (wrap : Wrap) (pc : Pc fl services)
      → remaining (enter d wrap pc) ≤ suc (Inner.remaining fl services pc)
  unfolding enter remaining
  enter-remaining wrap (finished r) = omega arith
  enter-remaining wrap begun = omega arith
  enter-remaining wrap (asking purpose attempt left last_err) = omega arith
  enter-remaining wrap (sending purpose attempt left last_err) = omega arith
  enter-remaining wrap (comparing parsed v) = omega arith
  enter-remaining wrap (storing v payload bytes) = omega arith

  after_prompt-remaining :
      (purpose : RouterPurpose) (reply : Result (LlmError client.HttpError) Text)
      → remaining (after_prompt d purpose reply) ≤ after_of purpose
  unfolding after_prompt remaining after_of Inner.remaining
  after_prompt-remaining to_route (err e) = omega arith
  after_prompt-remaining to_route (ok raw) =
      if_keeps (λ t. remaining t ≤ 19) (text_eq (route_of d raw) (codes "SQL"))
        (prompt d to_write_sql) (inside as_result begun) (omega arith) (omega arith)
  after_prompt-remaining to_write_sql (err e) = omega arith
  after_prompt-remaining to_write_sql (ok raw) =
      elim (Result-cases (parse_llm_json d.sql_from_str raw)) [
        | inl (_, e) ↦ rw (e, remaining) (omega arith)
        | inr (_, e) ↦ rw (e, remaining) (omega arith)
      ]

  after_post-remaining :
      (purpose : RouterPurpose) (attempt left : ℕ)
      (response : Result client.HttpError client.Response)
      → remaining (after_post d purpose attempt left response) ≤ after_of purpose + 2 * left + 1
  unfolding after_post remaining
  after_post-remaining purpose attempt left (ok res) =
      omega (arith, after_prompt-remaining purpose (read_response client res))
  after_post-remaining purpose attempt left (err e) = omega arith

  -- Every step of a request that is not at its end brings it nearer.
  pub progress-remaining :
      (now : ℕ) (input : Door × Text) (s : Full fl services parser engine V) (t : Task d)
      → is_done d t ≡ false
      → remaining (progress d now input s t).1 < remaining t
  unfolding progress remaining
  progress-remaining now (door, query) s (prompting purpose attempt zero last_err) h =
      omega (arith, after_prompt-remaining purpose (err (unreachable last_err)))
  progress-remaining now (door, query) s (prompting purpose attempt (suc left) last_err) h =
      omega arith
  progress-remaining now (door, query) s (posting purpose attempt left last_err) h =
      let reply = (client.post s.rest.llm (router_prompt query purpose)).1 in
      omega (arith, after_post-remaining purpose attempt left reply)
  progress-remaining now (door, query) s (executing_generated generated_sql) h = omega arith
  progress-remaining now (door, query) s executing h = omega arith
  progress-remaining now (door, query) s (inside wrap pc) h = elim (finished_or fl services pc) [
    | inl (r, e) ↦ unfold advance enter in (rw e (omega arith))
    | inr going ↦
        let out = advance fl services now query s.rest pc in
        let bound = enter-remaining wrap out.1 in
        omega (arith, advance-remaining fl services query now s.rest pc going)
  ]
  progress-remaining now (door, query) s (done reply) h = ground arith

  pub begin-remaining : (input : Door × Text) → remaining (begin d input) ≤ 24
  unfolding begin remaining after_of Inner.remaining
  begin-remaining (by_router, query) = omega arith
  begin-remaining (by_semantic, query) = omega arith
  begin-remaining (by_sql, query) = omega arith

  -- However the requests of all doors are interleaved, they take at most twenty-four steps for each
  -- request that has arrived, on the cache, with the client and on the SQL engine, all retries and
  -- the fallback included.
  pub turns_bounded :
      {s : Full fl services parser engine V} {t : System (doors d)} (r : Reach (doors d) s t)
      → turns (doors d) r ≤ 24 * arrivals (doors d) r
  turns_bounded r = turns-arrivals (doors d) remaining 24 begin-remaining progress-remaining r
