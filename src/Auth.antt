-- ===== src/Auth.antt =====
-- internal/auth: passwords, the lockout, the two steps of a login, sessions and their tokens,
-- impersonation. The methods of `Manager` are actions on the database.
pub mod Totp
pub mod Lockout
pub mod Manager
pub mod Login
pub mod SecondFactor
pub mod Sessions
pub mod Kept
