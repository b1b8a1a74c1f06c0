-- ===== src/Examples.antt =====
-- Concrete systems on which the theorems are applied, and runs of the operations on them.
mod Fixtures
mod Resources
mod Residents
mod Stores
mod Requests
mod Clients
mod Sessions
