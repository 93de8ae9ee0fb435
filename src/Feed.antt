-- ===== src/Feed.antt =====
-- Normalised feed data and the duplicate removal over it (internal/feed).
pub mod Model
pub mod Dedup
pub mod Parser
