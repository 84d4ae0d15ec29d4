-- ===== src/Sql.antt =====
-- src/sql/ and include/matador/sql/: the text of a query in a dialect.
pub mod Dialect
pub mod Syntax
pub mod Build
pub mod Linker
pub mod QueryState
pub mod Query
mod Tests
mod QueryTests
