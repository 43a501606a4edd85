-- ===== src/Shared.antt =====
-- dashboard/src/shared: what the reducers and the actions call.
pub mod Json
pub mod Storage
pub mod Auth
pub mod Kube
pub mod Namespace
pub mod Url
