-- ===== src/Tests.antt =====
-- The theorems at concrete inputs.
pub mod Concrete
mod CacheTests
mod HistoryTests
mod SearchTests
mod EmbeddingTests
mod ModelTests
mod SqlTests
mod PipelineTests
mod GatewayTests
mod QueryTests
mod RepeatTests
mod ImportTests
mod CommandTests
mod ConcurrentTests
