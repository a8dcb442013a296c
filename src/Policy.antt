-- ===== src/Policy.antt =====
-- internal/policy: whether an event is worth acting on.
pub mod Glob
pub mod Markdown
pub mod Command
pub mod Engine
mod Tests
