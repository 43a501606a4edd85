-- ===== src/Thunks.antt =====
-- The functions of dashboard/src/actions that make requests and dispatch actions. `uri` is the
-- configured address of the logout. What is dispatched without being awaited is run to its end there,
-- which is one of the orders in which its parts may come.
pub mod Session
pub mod Login
pub mod Namespaces
pub mod Releases
pub mod Catalog
pub mod Repositories
pub mod Olm
pub mod Resources
