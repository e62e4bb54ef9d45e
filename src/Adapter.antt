-- ===== src/Adapter.antt =====
-- The adapters over the tracker: tracker-angular, tracker-next and the script tag of tracker/src/umd.ts.
pub mod Angular
pub mod Next
pub mod Pages
pub mod Script
pub mod RoundTrip
pub mod Boot
