-- ===== src/Review.antt =====
-- internal/review: what the agent's answer becomes before it is published.
pub mod Utf8
pub mod Text
pub mod Findings
pub mod Diff
pub mod Index
pub mod Diagram
pub mod Extract
