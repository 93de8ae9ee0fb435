-- ===== src/Storage.antt =====
-- internal/storage/postgres: the store, the embedded migrations and the loop that applies them, and
-- the repository.
pub mod Attempt
pub mod Migrations
pub mod Apply
pub mod Store
pub mod Upgrade
pub mod Repository
