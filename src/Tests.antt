-- ===== src/Tests.antt =====
-- Runs of the code on concrete inputs.
mod Engine
pub mod Histories
pub mod Terms
pub mod Admissions
pub mod Review
pub mod Webhook
pub mod Accounts
