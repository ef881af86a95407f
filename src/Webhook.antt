-- ===== src/Webhook.antt =====
-- packages/gateway/src/webhook/express-server.ts, which the webhook adapters share.
pub mod RawBody
pub mod Listener
pub mod Answers
