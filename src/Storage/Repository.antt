-- ===== src/Storage/Repository.antt =====
-- internal/storage/postgres/repository.go: the rows, the operations, and what they keep.
pub mod Table
pub mod Rows
pub mod Writes
pub mod Server
pub mod Operations
pub mod Articles
pub mod Bindings
pub mod Consistent
pub mod History
pub mod RoundTrip
pub mod Identity
pub mod Accounts
pub mod Subscriptions
pub mod Checks
