-- ===== src/Cc.antt =====
-- cc/: the C compiler.
pub mod Token
pub mod Lexer
pub mod Attempt
pub mod Ast
pub mod Ssa
pub mod Asm
pub mod Parser
pub mod Whole
pub mod Driver
