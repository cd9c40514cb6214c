-- ===== src/Engines.antt =====
-- src/engines: the compute engines.
pub mod Cache
pub mod RankFusion
pub mod Rerank
pub mod AstGuard
pub mod Sql
pub mod Embeddings
pub mod Inference
pub mod Loading
pub mod Vector
