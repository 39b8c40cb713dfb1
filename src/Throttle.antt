-- ===== src/Throttle.antt =====
-- `src/throttle`: a server that hands out a limited number of transactions over HTTP, and its
-- client.
pub mod Server
pub mod Client
pub mod Together
