-- ===== src/Runtime.antt =====
-- src/presentation/telegram/runtime: what the bot keeps in memory of its users.
pub mod State
pub mod Secrets
pub mod Conversations
pub mod Callbacks
pub mod RateLimit
