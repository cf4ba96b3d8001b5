-- ===== src/Responder.antt =====
-- lacme/acme_server.py: the ACME responder. `State` has the data and the state of `ACMEResponder`,
-- `Request` reads a request, `Replies` what is sent, `Accounts`, `Orders` and
-- `Challenges` have the route handlers, and `Serve` is `__call__`.
pub mod State
pub mod Request
pub mod Replies
pub mod Accounts
pub mod Orders
pub mod Challenges
pub mod Serve
pub mod Numbered
pub mod Steps
pub mod Runs
pub mod Registered
pub mod Placed
pub mod Bodies
