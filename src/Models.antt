-- ===== src/Models.antt =====
-- The objects that wrap relation data: src/core/models.py.
pub mod Server
pub mod App
pub mod Client
pub mod Bundle
mod Tests
