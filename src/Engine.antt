-- ===== src/Engine.antt =====
-- internal/bot/engine.go: the workers that process the queues.
pub mod Errors
pub mod Program
pub mod Checks
pub mod Publish
pub mod Failures
pub mod Agent
pub mod Steps
pub mod Review
pub mod Nudge
pub mod World
pub mod Budget
pub mod Once
pub mod Settlement
pub mod Delivery
