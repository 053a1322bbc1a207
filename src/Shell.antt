-- ===== src/Shell.antt =====
-- tp1/src: the shell.
pub mod Chars
pub mod Tokenizer
pub mod Parser
pub mod Run
