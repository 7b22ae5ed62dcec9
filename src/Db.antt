-- ===== src/Db.antt =====
-- internal/db: the query builder.
pub mod Sanitize
pub mod Builder
pub mod Sql
pub mod Chain
pub mod Scope
pub mod Write
pub mod Read
pub mod Clone
pub mod Model
pub mod Query
pub mod Placeholders
pub mod Transaction
pub mod History
pub mod Tests
