-- ===== src/Kernel.antt =====
-- The part of xv6/kernel that is modelled: processes and their scheduling, pipes, free pages, page tables, the clock,
-- the log, the buffer cache, the console, directories and paths, and the string functions.
pub mod Proc
pub mod Mlfq
pub mod Scheduler
pub mod Sleep
pub mod Clock
pub mod Life
pub mod Pipe
pub mod Memory
pub mod Vm
pub mod Log
pub mod Cache
pub mod Console
pub mod Strings
pub mod Path
mod Tests
