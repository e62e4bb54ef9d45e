-- ===== src/Tracker.antt =====
-- packages/tracker: the browser tracker's core (src/core.ts) and its wire types (src/types.ts).
pub mod Types
pub mod Browser
pub mod Config
pub mod State
pub mod Event
pub mod Core
pub mod Loop
pub mod Invariant
pub mod Delivery
pub mod Runs
pub mod Liveness
pub mod Queue
pub mod Consent
pub mod Navigation
pub mod Payload
