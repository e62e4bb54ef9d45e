-- ===== src/Client.antt =====
-- packages/dashboard-react/src/client.ts and packages/dashboard-angular/src/client.ts: the typed
-- client of the statistics API.
pub mod Types
pub mod Query
pub mod Core
pub mod Calls
pub mod Access
pub mod Objects
pub mod Params
pub mod Server
pub mod Angular
pub mod Agreement
