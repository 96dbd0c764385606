-- ===== src/Api.antt =====
-- internal/api: who a request acts as, and what that account may do; internal/svc/apitokens.go.
pub mod Tokens
pub mod Limiter
pub mod Access
pub mod Users
pub mod Features
pub mod SignIn
pub mod Jobs
