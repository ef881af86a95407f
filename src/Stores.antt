-- ===== src/Stores.antt =====
-- The bounded stores of the adapters: email UIDs, email threads and LINE reply tokens.
pub mod SeenUids
pub mod Threads
pub mod ReplyTokens
