-- ===== src/A3.antt =====
-- Assignment 3.
pub mod ShellMemory
pub mod LinkedList
pub mod Exec
pub mod Pcb
pub mod Fs
pub mod Machine
pub mod Kernel
pub mod Scheduler
pub mod Guards
pub mod Commands
pub mod FileCommands
pub mod Interpreter
pub mod Shell
