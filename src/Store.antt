-- ===== src/Store.antt =====
-- store.py: certificates and account keys, on disk and in memory.
pub mod Names
pub mod Platform
pub mod Bundle
pub mod FileStore
pub mod Interface
pub mod Operations
pub mod Paths
pub mod Contents
pub mod Sessions
pub mod Agrees
pub mod Refines
pub mod Partial
pub mod Faults
pub mod Modes
pub mod Listed
