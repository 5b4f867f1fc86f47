-- ===== src/Api.antt =====
-- backend/package_analysis/views.py: the endpoints that change the tables or page through them.
pub mod Status
pub mod Callback
pub mod Analyze
pub mod Steps
pub mod Auth
pub mod Listing
pub mod TaskService
