-- ===== src/Client.antt =====
-- lacme/client.py: the signed requests of `Client`, its nonces and its account URL.
pub mod Network
pub mod Requests
pub mod Nonces
pub mod Retries
pub mod Polling
