-- ===== src/Telegram.antt =====
-- Where Telegram messages go and who may command the bot: pkg/telegram/route.
pub mod Route
pub mod Access
pub mod Tests
