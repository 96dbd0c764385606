-- ===== src/Htaccess.antt =====
-- internal/svc/htaccess.go: the .htaccess files of Apache. Directives are read into a configuration,
-- the configurations of a directory chain are merged, and the engine answers a request from the result.
pub mod Text
pub mod Config
pub mod Fields
pub mod Directives
pub mod Parse
pub mod Expand
pub mod Conds
pub mod Rules
pub mod Engine
