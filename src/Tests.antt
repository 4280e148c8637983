-- ===== src/Tests.antt =====
-- The theorems at concrete inputs.
pub mod Site
pub mod Sessions
pub mod Pages
pub mod Config
pub mod Landing
pub mod Desk
pub mod Edit
pub mod Settled
pub mod Users
pub mod Inside
pub mod Store
