-- ===== src/Challenges.antt =====
-- lacme/challenges: the handlers that `issue` provisions challenges with.
pub mod Http01
pub mod Dns01
