-- ===== src/A2.antt =====
-- Assignment 2: the shell with demand paging and scheduling of scripts.
pub mod State
pub mod ShellMemory
pub mod ReadyQueue
pub mod Kernel
pub mod Interpreter
pub mod Shell
