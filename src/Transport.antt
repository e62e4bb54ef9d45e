-- ===== src/Transport.antt =====
-- packages/tracker/src/transport.ts: the default transport.
pub mod Core
pub mod Sending
pub mod Pending
