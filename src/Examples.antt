-- ===== src/Examples.antt =====
-- The theorems at concrete inputs, and runs of the definitions.
mod Data
mod Clusters
mod Watches
mod Lists
mod Sessions
mod Uniq
mod Server
mod Requests
mod Updates
mod Views
mod Stores
mod Forms
mod Pages
mod Schemas
mod Operators
mod Escapes
