-- ===== src/Client.antt =====
-- cmd/client: the counters, and the loop over the lines of the user.
pub mod Metrics
pub mod Chat
pub mod Deployed
pub mod Tls
pub mod Main
pub mod Display
