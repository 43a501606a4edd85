-- ===== src/Views.antt =====
-- dashboard/src/components and dashboard/src/shared: what the pages compute from the state.
pub mod Descriptions
pub mod Application
pub mod RepoFilter
pub mod Catalog
pub mod Status
pub mod RepoForm
pub mod Schema
pub mod OperatorForm
pub mod ContextSelector
pub mod OperatorInstance
