-- ===== src/Pipeline.antt =====
-- internal/worker/pipeline: the concurrent transfer pipeline.
pub mod Window
pub mod Mem
pub mod Types
pub mod Config
pub mod Read
pub mod Send
mod Tests
mod StageTests
