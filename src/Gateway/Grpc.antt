-- ===== src/Gateway/Grpc.antt =====
-- `execute_sql` and `execute_semantic` of src/gateway/grpc/service.rs. A score is 1 or 0.
pub mod Laws
use rust_enterprise_query_en.Common.{
  ℕ, ◌+◌, ◌^◌, List, [], ◌∷◌, map, Option, Result, ok, err, ◌>>=◌, map_err, if◌then◌else◌,
}
use rust_enterprise_query_en.Common.Text.{Text, codes}
use rust_enterprise_query_en.Engines.AstGuard.{SqlParser}
use rust_enterprise_query_en.Engines.Sql.{SqlEngine, Error, engine_failed, execute_sql_query}
use rust_enterprise_query_en.Pipelines.Types.{
  DegradedChunk, SemanticQueryResult, verified, degraded,
}
use rust_enterprise_query_en.Gateway.Requests.{
  GrpcCode, invalid_argument, internal, Failure, refused, failed, grpc_guards,
}
use Prim.Native.Nat.{◌%◌}

pub record SqlQueryResponse : Type 0 where
  pub json_lines : Text
  pub row_count : ℕ

pub record RetrievedRecord : Type 0 where
  pub kunnr : Text
  pub sentence : Text
  pub score : ℕ

pub record SemanticQueryResponse : Type 0 where
  pub answer : Text
  pub records : List RetrievedRecord

module _ (parser : SqlParser) (engine : SqlEngine) where
  abbrev pub SqlStatus : Type 0
  SqlStatus = GrpcCode × Failure (Error parser engine)

  unfoldable pub sum_rows : List engine.RecordBatch → ℕ
  sum_rows [] = 0
  sum_rows (b ∷ bs) = engine.num_rows b + sum_rows bs

  -- `as u32` keeps the low 32 bits.
  unfoldable pub sql_response : List engine.RecordBatch → Text → SqlQueryResponse
  sql_response batches raw_lines = record {
    json_lines = raw_lines;
    row_count = sum_rows batches % 2 ^ 32;
  }

  unfoldable pub reply :
      engine.State × Result (Error parser engine) (List engine.RecordBatch)
      → engine.State × Result SqlStatus SqlQueryResponse
  reply (s, executed) = (
    s,
    (do
      batches ← map_err (λ e. (invalid_argument, failed (codes "SQL Execution Error: ") e)) executed
      raw_lines ←
          map_err (λ e. (internal, failed (codes "Serialization Error: ") (engine_failed e)))
            (engine.write_json_lines batches)
      ok (sql_response batches raw_lines)),
  )

  unfoldable pub execute_accepted :
      Option ℕ
      → engine.State
      → Result SqlStatus Text
      → engine.State × Result SqlStatus SqlQueryResponse
  execute_accepted setting s (err e) = (s, err e)
  execute_accepted setting s (ok trimmed) =
      reply (execute_sql_query parser engine setting s trimmed)

  unfoldable pub execute_sql :
      Option ℕ → ℕ → engine.State → Text → engine.State × Result SqlStatus SqlQueryResponse
  execute_sql setting max_chars s query =
      execute_accepted setting s
        (map_err (λ e. (e.0, refused e.1)) (grpc_guards query (codes "SQL query") max_chars))

unfoldable pub record_of_chunk : DegradedChunk → RetrievedRecord
record_of_chunk c = record { kunnr = c.chunk_id; sentence = c.content; score = 0 }

unfoldable pub semantic_response : SemanticQueryResult → SemanticQueryResponse
semantic_response (verified v) = record {
  answer = v.answer;
  records =
      record {
        kunnr = v.source_chunk_id;
        sentence = v.exact_quote;
        score = if v.answer_found then 1 else 0;
      }
      ∷ [];
}
semantic_response (degraded d) = record {
  answer = d.message;
  records = map record_of_chunk d.retrieved_chunks;
}

-- Over any pipeline.
unfoldable pub execute_semantic :
    {E : Type 0}
    → ℕ
    → (Text → Result E SemanticQueryResult)
    → Text
    → Result (GrpcCode × Failure E) SemanticQueryResponse
execute_semantic max_chars pipeline query = do
  trimmed ← map_err (λ e. (e.0, refused e.1)) (grpc_guards query (codes "Semantic query") max_chars)
  result ←
      map_err (λ e. (internal, failed (codes "Semantic pipeline error: ") e)) (pipeline trimmed)
  ok (semantic_response result)
