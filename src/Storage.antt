-- ===== src/Storage.antt =====
-- internal/storage: the PostgreSQL store. The tables are those of migrations/0001_init.up.sql and
-- migrations/0004_max_users_full_name.up.sql; each SQL statement of store.go is a function on them.
pub mod Tables
pub mod Database
pub mod Queue
pub mod Retention
pub mod Stats
pub mod Routes
pub mod Enqueue
pub mod Invites
pub mod Accounts
pub mod Lifecycle
pub mod Migrate
pub mod Listings
pub mod Present
