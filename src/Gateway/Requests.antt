-- ===== src/Gateway/Requests.antt =====
-- The validation of a query's text: `validate_query_str` of src/gateway/http/routes.rs, and the same
-- guards written out in the handlers of src/gateway/grpc/service.rs.
pub mod Laws
use rust_enterprise_query_en.Common.{
  ℕ, Bool, Result, ok, err, if◌then◌else◌, ltb, map_err, ◌>>=◌, List, ◌++◌,
}
use rust_enterprise_query_en.Common.Text.{Text, trim, is_empty, byte_len, codes}

pub data StatusCode : Type 0 where
  ok_200 bad_request internal_server_error service_unavailable : StatusCode

-- The codes of `tonic::Status` that the service uses.
pub data GrpcCode : Type 0 where
  invalid_argument internal : GrpcCode

-- `format!("{} cannot be empty", name)` and its companion; `max` is printed in decimal.
pub data Refusal : Type 0 where
  cannot_be_empty : (name : Text) → Refusal
  exceeds_maximum : (name : Text) (max_chars : ℕ) → Refusal

-- `validate_query_str`: the trimmed query, or the status with the message.
unfoldable pub validate_query_str : Text → Text → ℕ → Result (StatusCode × Refusal) Text
validate_query_str query name max_chars =
    let trimmed = trim query in
    if is_empty trimmed
    then err (bad_request, cannot_be_empty name)
    else if ltb max_chars (byte_len trimmed)
    then err (bad_request, exceeds_maximum name max_chars)
    else ok trimmed

-- The guards of `execute_sql`, whose `name` is `SQL query`, and of `execute_semantic`, whose `name` is
-- `Semantic query`.
unfoldable pub grpc_guards : Text → Text → ℕ → Result (GrpcCode × Refusal) Text
grpc_guards query name max_chars =
    let trimmed = trim query in
    if is_empty trimmed
    then err (invalid_argument, cannot_be_empty name)
    else if ltb max_chars (byte_len trimmed)
    then err (invalid_argument, exceeds_maximum name max_chars)
    else ok trimmed

-- A handler's failure behind its guards: the message with the code of its kind.
pub data Failure {ℓ} (E : Type ℓ) : Type ℓ where
  refused : Refusal → Failure E
  failed : (prefix : Text) (error : E) → Failure E

-- `semantic_query_handler` and `router_query_handler`: the guards, then the pipeline, whose errors
-- become 500.
unfoldable pub pipeline_handler :
    {E A : Type 0} → Text → ℕ → (Text → Result E A) → Text → Result (StatusCode × Failure E) A
pipeline_handler prefix max_chars pipeline query = do
  trimmed ← map_err (λ e. (e.0, refused e.1)) (validate_query_str query (codes "Query") max_chars)
  map_err (λ e. (internal_server_error, failed prefix e)) (pipeline trimmed)
