-- ===== src/Events/Parse.antt =====
-- crates/common/src/events/filter_parse.rs: event filters as text. The tokens come from the lexer
-- one by one, as the parser asks for them.
pub mod Errors
pub mod Lexer
pub mod Parser
pub mod Keyword
pub mod Filters
