-- ===== src/Process.antt =====
-- source/process: processes and the choice of the next one.
pub mod Structs
pub mod Mappings
pub mod Scheduler
pub mod Lifecycle
pub mod Syscalls
