-- ===== src/Tests.antt =====
-- Concrete worlds, and runs of the models in them.
pub mod World
pub mod Program
pub mod Disk
mod Texts
mod Requests
mod Limits
mod Clients
mod Stores
mod Mocks
mod Issuances
mod Dispatches
mod Renewals
mod Measures
mod Handlers
