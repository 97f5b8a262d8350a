-- ===== src/Shell.antt =====
-- The part of c-shell that is modelled: the lines that it reads, the jobs, and three of its builtins.
pub mod Token
pub mod Lexer
pub mod Parser
pub mod Jobs
pub mod Run
pub mod Redirection
pub mod Builtin
pub mod Peek
pub mod Hop
mod Tests
