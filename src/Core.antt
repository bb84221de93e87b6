-- ===== src/Core.antt =====
-- internal/core: the services between the handlers and the data access layer.
pub mod Presets
pub mod Extract
pub mod Search
pub mod Select
pub mod Gen
pub mod RotateAll
pub mod Claims
pub mod Sources
pub mod Steady
