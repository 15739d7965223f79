-- ===== src/Tests.antt =====
-- Runs of the code at concrete inputs.
pub mod A1
pub mod A2
pub mod A3
pub mod Bitmap
pub mod Lists
pub mod Files
pub mod Directories
pub mod Processes
pub mod Machine
pub mod Utilities
