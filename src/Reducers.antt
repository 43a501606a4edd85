-- ===== src/Reducers.antt =====
-- dashboard/src/reducers: the state of the dashboard and how each action changes it.
pub mod Cluster
pub mod Kube
pub mod Repos
pub mod Operators
pub mod Apps
pub mod Charts
pub mod Auth
pub mod Config
pub mod Store
