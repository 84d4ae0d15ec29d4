-- ===== src/Http.antt =====
-- src/http and include/matador/http: methods, statuses and the two parsers.
pub mod Chars
pub mod Types
pub mod ParserState
pub mod RequestLine
pub mod HeaderLines
pub mod RequestParser
pub mod Methods
pub mod Status
pub mod ResponseState
pub mod StatusLine
pub mod ResponseLines
pub mod ResponseParser
pub mod Routing
