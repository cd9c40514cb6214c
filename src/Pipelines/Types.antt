-- ===== src/Pipelines/Types.antt =====
-- src/common/types.rs, and the result types of src/pipelines/query.
use rust_enterprise_query_en.Common.{Bool, List, Option}
use rust_enterprise_query_en.Common.Text.{Text}

pub record Kna1Row : Type 0 where
  pub kunnr : Option Text
  pub name1 : Option Text
  pub ort01 : Option Text
  pub land1 : Option Text

pub record RouterDecision : Type 0 where
  pub route : Text

pub record SqlResponse : Type 0 where
  pub query : Text

pub record SemanticResponse : Type 0 where
  pub answer_found : Bool
  pub answer : Text
  pub exact_quote : Text
  pub source_chunk_id : Text

pub record ParsedQuestion : Type 0 where
  pub intent : Text
  pub filters : List Text

pub record DegradedChunk : Type 0 where
  pub chunk_id : Text
  pub content : Text

pub record DegradedResponse : Type 0 where
  pub degraded : Bool
  pub message : Text
  pub retrieved_chunks : List DegradedChunk

pub data SemanticQueryResult : Type 0 where
  verified : SemanticResponse → SemanticQueryResult
  degraded : DegradedResponse → SemanticQueryResult
