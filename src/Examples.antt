-- ===== src/Examples.antt =====
-- Concrete pages, configurations and numbers, and the theorems applied to them.
mod Data
mod Decimals
mod Tracking
mod Adapting
mod Asking
mod Rating
mod Visits
mod Shown
mod Serving
mod Viewing
mod CoreTests
mod Underway
