-- ===== src/Pipeline.antt =====
-- internal/pipeline
pub mod Message
pub mod Status
pub mod Workers
pub mod Batcher
pub mod Scanner
pub mod Prompt
pub mod Cloner
pub mod Parser
pub mod Store
pub mod Worker
pub mod Recovery
