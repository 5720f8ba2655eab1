-- ===== src/Earth.antt =====
-- The earth layer: the pages of memory, the address spaces, and the devices.
pub mod PageAlloc
pub mod Mmu
pub mod Tty
pub mod Disk
pub mod PageTable
pub mod Timer
