-- ===== src/A1.antt =====
-- Assignment 1: the shell with variables and commands of the host system.
pub mod ShellMemory
pub mod Shell
pub mod Interpreter
