-- ===== src/TextDiff.antt =====
-- internal/textdiff: unified diffs of two texts.
pub mod Lines
pub mod Script
pub mod Slide
pub mod Compact
pub mod Rebase
pub mod Hunks
pub mod Unified
mod Tests
