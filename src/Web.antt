-- ===== src/Web.antt =====
-- web/src: the public site, the session and the workspace of the gateway's browser frontend. Vite
-- resolves the import "./App" to App.js first, so handlers are modelled from the .js files; types
-- and markup are modelled from the .tsx files, of which the .js files are the compiled form.
pub mod Types
pub mod Format
pub mod Session
pub mod Landing
pub mod View
pub mod Page
pub mod Pages
pub mod Workspace
pub mod Http
