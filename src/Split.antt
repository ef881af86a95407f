-- ===== src/Split.antt =====
-- The `split.ts` of each platform package: how a reply is cut to the platform's message limit.
pub mod Channels
pub mod Telegram
