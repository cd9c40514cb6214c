-- ===== src/Pipelines/Query/Degraded.antt =====
-- The degraded responses of src/pipelines/query/mod.rs, by what a client reads in their fields.
use rust_enterprise_query_en.Common.{true, List, [], ◌∷◌, ◌++◌, map, ◌≡◌, refl, ap}
use rust_enterprise_query_en.Common.Text.{Text, codes}
use rust_enterprise_query_en.Pipelines.Types.{DegradedChunk, DegradedResponse, degraded}
use rust_enterprise_query_en.Pipelines.Query.{build_degraded_response, degraded_chunk}

-- The ids and contents that a response lists, in their order.
abbrev pub listed : List DegradedChunk → List (Text × Text)
listed [] = []
listed (c ∷ cs) = (c.chunk_id, c.content) ∷ listed cs

-- The response carries the flag, names the error, and lists exactly the chunks.
pub record IsDegraded (chunks : List (Text × Text)) (error : Text) (d : DegradedResponse)
    : Type 0 where
  pub flagged : d.degraded ≡ true
  pub explained : d.message ≡ codes "LLM is offline or timed out: " ++ error
  pub complete : listed d.retrieved_chunks ≡ chunks

listed-map : (chunks : List (Text × Text)) → listed (map degraded_chunk chunks) ≡ chunks
listed-map [] = refl
listed-map (c ∷ chunks) = ap (◌∷◌ c) (listed-map chunks)

pub build_degraded_response-IsDegraded :
    (chunks : List (Text × Text)) (error : Text)
    → (d : DegradedResponse) × (build_degraded_response chunks error ≡ degraded d)
      × IsDegraded chunks error d
unfolding build_degraded_response
build_degraded_response-IsDegraded chunks error =
    (_, refl, record { flagged = refl; explained = refl; complete = listed-map chunks })
