-- ===== src/Pipelines/Query/Concurrent/Alone.antt =====
-- A step of a request of src/pipelines/query/mod.rs that no other interrupts, against the sequential
-- pipeline.
use rust_enterprise_query_en.Common.{ℕ, zero, suc, err, ◌≡◌, refl}
use rust_enterprise_query_en.Common.Text.{Text}
use rust_enterprise_query_en.Common.Floats.{Floats}
use rust_enterprise_query_en.Engines.Cache.{get_exact, get_similar}
use rust_enterprise_query_en.Pipelines.Ollama.{prompt_model, attempts, unreachable, pause}
use rust_enterprise_query_en.Pipelines.Query.{
  Services, Times, State, decode_cached, retrieve, with_vector, ask_parser, run_semantic_pipeline,
}
use rust_enterprise_query_en.Pipelines.Query.Concurrent.{
  Pc, to_parse, begun, asking, sending, comparing, storing, finished, ask, prompt_of,
  after_retrieval, advance,
}
use rust_enterprise_query_en.Pipelines.Query.Concurrent.Rest.{
  rest, rest-after_reply, rest-after_lookup, rest-after_retrieval, rest-after_response,
  sending-on_reply,
}

module _ (fl : Floats) (services : Services fl) where
  open services use {client, store, JsonError}

  -- The time that a step reads, of the three that a run is given.
  unfoldable pub clock : Times → Pc fl services → ℕ
  clock times begun = times.at_exact
  clock times (comparing parsed v) = times.at_similar
  clock times _ = times.at_insert

  module _ (times : Times) (query : Text) where
    -- A step leaves the same to do.
    pub rest-advance :
        (s : State fl services) (pc : Pc fl services)
        → (let out = advance fl services (clock times pc) query s pc in
            rest fl services times query out.0 out.1)
          ≡ rest fl services times query s pc
    unfolding advance clock rest run_semantic_pipeline ask_parser attempts prompt_model prompt_of
        with_vector
    rest-advance s begun =
        let hit = get_exact fl times.at_exact query s.cache in
        rest-after_lookup fl services times query (record s { cache = hit.0 })
          (decode_cached fl services hit.1) (ask fl services to_parse)
    rest-advance s (asking purpose attempt zero last_err) =
        rest-after_reply fl services times query s purpose (err (unreachable last_err))
    rest-advance s (asking purpose attempt (suc left) last_err) =
        let out = client.post (pause client attempt s.llm) (prompt_of fl services query purpose) in
        sending-on_reply fl services times query s purpose attempt left out.0 out.1
    rest-advance s (sending purpose attempt left last_err) =
        let out = client.post s.llm (prompt_of fl services query purpose) in
        rest-after_response fl services times query (record s { llm = out.0 }) purpose attempt left
          out.1
    rest-advance s (comparing parsed v) =
        let hit = get_similar fl times.at_similar v s.cache in
        let chunks = retrieve fl services query parsed v in
        let s' : State fl services = record s { cache = hit.0 } in
        rw
          (
            rest-after_lookup fl services times query s' (decode_cached fl services hit.1)
                (after_retrieval fl services parsed v chunks),
            rest-after_retrieval fl services times query s' parsed v chunks,
          )
          refl
    rest-advance s (storing v payload bytes) = refl
    rest-advance s (finished r) = refl
