-- ===== src/Sql.antt =====
-- sql: the lexer, the syntax tree and the parser.
pub mod Token
pub mod Lexer
pub mod Ast
pub mod Parser
pub mod Format
