-- ===== src/Worker.antt =====
-- internal/worker: the handler of jobs around the review itself, and the mode that writes code.
pub mod Errors
pub mod Guard
pub mod Paths
pub mod Implement
pub mod Budget
