-- ===== src/Grass.antt =====
-- The grass layer (grass/): processes, the scheduler, system calls and traps.
pub mod Process
pub mod Scheduler
pub mod Syscall
pub mod Trap
pub mod Invariant
