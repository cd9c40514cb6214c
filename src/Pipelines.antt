-- ===== src/Pipelines.antt =====
-- src/pipelines: orchestration.
pub mod Types
pub mod Firewall
pub mod Ollama
pub mod Prompts
pub mod Ingest
pub mod Query
