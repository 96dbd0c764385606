-- ===== src/Store.antt =====
-- internal/store: the tables, and the statements that read and write them.
pub mod Schema
pub mod Result
pub mod Users
pub mod Packages
pub mod Sessions
pub mod Tokens
pub mod Delete
pub mod Suspension
pub mod Cron
