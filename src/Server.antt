-- ===== src/Server.antt =====
-- internal/server: the endpoint that GitHub calls.
pub mod Names
pub mod Webhook
