-- ===== src/Pipelines/Ollama/Laws.antt =====
-- How often the model is asked, and what is returned.
use rust_enterprise_query_en.Common.{some, Result, ok, err, ◌≡◌, ◌⊎◌, inl, inr, Result-cases, arith}
use rust_enterprise_query_en.Common.Text.{Text}
use rust_enterprise_query_en.Pipelines.Ollama.{
  HttpClient, LlmError, unreachable, read_response, pause, attempts, prompt_model,
}

module _ (client : HttpClient) (prompt : Text) (w : client.World) where
  open client use {World, HttpError, Response, post, json, sleep}

  -- The second attempt starts half a second after the first has failed.
  abbrev pub second : World × Result HttpError Response
  second = post (sleep (post w prompt).0 500) prompt

  -- The ways in which a prompt can end: the first request is answered, or it fails and the second
  -- is answered, or both fail.
  abbrev pub Attempted : World × Result (LlmError HttpError) Text → Type 0
  Attempted out =
      ((res : Response) × ((post w prompt).1 ≡ ok res)
        × (out ≡ ((post w prompt).0, read_response client res)))
      ⊎ (((e : HttpError) × (res : Response) × ((post w prompt).1 ≡ err e)
            × (second.1 ≡ ok res)
            × (out ≡ (second.0, read_response client res)))
          ⊎ ((e e' : HttpError) × ((post w prompt).1 ≡ err e)
              × (second.1 ≡ err e')
              × (out ≡ (second.0, err (unreachable (some e'))))))

  -- A prompt sends one request, and a second only if the first could not be sent; a response that
  -- is received is final, also if it does not parse; and two failures report the second error.
  pub prompt_model-Attempted : Attempted (prompt_model client prompt w)
  unfolding prompt_model attempts pause
  prompt_model-Attempted = elim (Result-cases (post w prompt).1) [
    | inl (res, answered) ↦ inl (res, answered, ground arith)
    | inr (e, failed) ↦ elim (Result-cases second.1) [
      | inl (res, answered) ↦ inr (inl (e, res, failed, answered, ground arith))
      | inr (e', failed') ↦ inr (inr (e, e', failed, failed', ground arith))
    ]
  ]
