-- ===== src/Agent.antt =====
-- agentweb/src/App.tsx: the browser frontend of the desktop agent.
pub mod Types
pub mod Form
pub mod Http
pub mod State
pub mod Actions
pub mod View
