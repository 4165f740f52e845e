-- ===== src/Tests.antt =====
-- Tests: the theorems at concrete inputs.
pub mod Fixtures
pub mod Storage
pub mod Views
pub mod Recovery
mod Choices
pub mod Store
pub mod Graph
pub mod Turns
pub mod Pauses
pub mod Publications
pub mod Controls
