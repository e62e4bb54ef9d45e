-- ===== src/Vitals.antt =====
-- packages/tracker/src/vitals.ts: the collector of Core Web Vitals.
pub mod Core
pub mod Once
pub mod Entries
pub mod Values
pub mod Rating
pub mod Positive
