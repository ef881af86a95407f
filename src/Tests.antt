-- ===== src/Tests.antt =====
-- The theorems at concrete inputs, and runs of the definitions, one module to a component.
mod Splitting
mod Sessions
mod Storing
mod Running
mod Living
mod Reading
mod Answering
mod Calling
mod Handshakes
mod Deciding
