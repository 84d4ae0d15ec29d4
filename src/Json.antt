-- ===== src/Json.antt =====
-- src/json and include/matador/json: values, their texts, and the parser.
pub mod Value
pub mod Print
pub mod Scalar
pub mod Events
pub mod Parser
pub mod Builder
pub mod Access
mod Tests
mod AccessTests
