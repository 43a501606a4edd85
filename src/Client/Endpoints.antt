-- ===== src/Client/Endpoints.antt =====
-- dashboard/src/shared: the classes that make the requests of one part of the API each. `uri` is the
-- configured address of the logout, which an error may send the browser to.
pub mod Releases
pub mod Catalog
pub mod AppRepositories
pub mod Secrets
pub mod Olm
pub mod Cluster
