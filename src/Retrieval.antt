-- ===== src/Retrieval.antt =====
-- The bounded retrieval of remote feeds (internal/retrieval).
pub mod Error
pub mod Backoff
pub mod RetryAfter
pub mod Policy
pub mod Redirect
pub mod Dial
pub mod Config
pub mod Exchange
pub mod Fetch
pub mod Sleep
pub mod Slots
pub mod Transport
