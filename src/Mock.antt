-- ===== src/Mock.antt =====
-- testing.py: the in-process ACME server for tests.
pub mod State
pub mod Accounts
pub mod Orders
pub mod Challenges
pub mod Serve
pub mod View
