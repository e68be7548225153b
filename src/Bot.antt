-- ===== src/Bot.antt =====
-- src/server/routes/bot.rs and auth.rs: the handlers that the backends call.
pub mod Auth
pub mod Send
mod Access
pub mod Sending
pub mod History
pub mod Examples
