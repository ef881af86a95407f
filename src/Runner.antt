-- ===== src/Runner.antt =====
-- packages/gateway/src/runner/gateway-runner.ts.
pub mod Dispatch
pub mod Lifecycle
