-- ===== src/Api.antt =====
-- The guards of the HTTP boundary: app/api/security.py and app/api/uploads.py.
pub mod RateLimit
pub mod Body
pub mod Client
pub mod Upload
