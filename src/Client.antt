-- ===== src/Client.antt =====
-- The dashboard's access to its back ends: requests, the errors that they meet, and
-- dashboard/src/shared's classes of endpoints.
pub mod Page
pub mod Platform
pub mod Body
pub mod Http
pub mod Endpoints
