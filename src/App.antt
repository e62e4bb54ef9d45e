-- ===== src/App.antt =====
-- apps/dashboard-next: the environment of the server (lib/env.ts), its API client (lib/api.ts) and its
-- pages (app).
pub mod Env
pub mod Api
pub mod Pages
pub mod Tables
pub mod Overview
