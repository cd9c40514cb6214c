-- ===== src/Pipelines/Ollama.antt =====
-- src/pipelines/query/ollama.rs: the client of the language model, with one retry. The HTTP client
-- is a parameter over a state of its own: a request is sent, or fails; a response that was received
-- gives the field `response` of its JSON, or fails to parse.
pub mod Laws
pub mod Setup
use rust_enterprise_query_en.Common.{
  ℕ, zero, suc, ◌+◌, Bool, true, false, List, [], ◌∷◌, Option, none, some, Result, ok, err, ltb,
  if◌then◌else◌,
}
use rust_enterprise_query_en.Common.Text.{Text}

pub record HttpClient : Type 1 where
  pub World : Type 0
  pub HttpError : Type 0
  pub Response : Type 0
  pub post : World → Text → World × Result HttpError Response
  pub json : Response → Result HttpError Text
  pub sleep : World → ℕ → World

pub data LlmError (E : Type 0) : Type 0 where
  bad_response : E → LlmError E
  unreachable : (last_error : Option E) → LlmError E

module _ (client : HttpClient) where
  open client use {World, HttpError, Response, post, json, sleep}

  unfoldable pub read_response : Response → Result (LlmError HttpError) Text
  read_response res = elim (json res) [ ok text ↦ ok text | err e ↦ err (bad_response e) ]

  -- Half a second before each attempt but the first.
  unfoldable pub pause : ℕ → World → World
  pause attempt w = if ltb 0 attempt then sleep w 500 else w

  -- The loop, from `attempt` on with `n` rounds left and the last error.
  unfoldable pub attempts :
      ℕ → ℕ → Option HttpError → Text → World → World × Result (LlmError HttpError) Text
  attempts attempt zero last_err prompt w = (w, err (unreachable last_err))
  attempts attempt (suc n) last_err prompt w =
      let out = post (pause attempt w) prompt in
      elim out.1 [
        | ok res ↦ (out.0, read_response res)
        | err e ↦ attempts (suc attempt) n (some e) prompt out.0
      ]

  -- `prompt_model`
  unfoldable pub prompt_model : Text → World → World × Result (LlmError HttpError) Text
  prompt_model prompt w = attempts 0 2 none prompt w
