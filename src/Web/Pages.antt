-- ===== src/Web/Pages.antt =====
-- The pages of web/src/workspace: the state that each keeps, its handlers, and what it shows.
pub mod Users
pub mod Tenants
pub mod Plans
pub mod Tls
pub mod Dashboard
pub mod Overview
pub mod System
pub mod Routes
pub mod Connectors
pub mod Config
