-- ===== src/Format.antt =====
-- packages/dashboard-react/src/format.ts: the formatters of numbers, durations and country codes.
pub mod Core
pub mod Duration
pub mod Flag
pub mod Decimal
pub mod Angular
