-- ===== src/Issuing.antt =====
-- `Client.issue` of client.py: the steps from an account to a stored certificate.
pub mod Monad
pub mod Calls
pub mod Effective
pub mod Issue
pub mod Triples
pub mod Routes
pub mod Keeps
pub mod Cleanup
pub mod Checked
