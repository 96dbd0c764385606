-- ===== src/Sql.antt =====
-- The database editor of internal/svc (dbeditor.go, dbeditor_io.go), on lists of bytes.
pub mod Bytes
pub mod Parts
pub mod Scanner
pub mod Literals
pub mod Import
pub mod Filters
