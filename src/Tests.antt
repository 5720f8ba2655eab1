-- ===== src/Tests.antt =====
-- The theorems at concrete states, and small runs of the models.
mod Machine
mod Disk
mod Trap
mod Shell
mod User
mod Kernel
mod Table
mod Files
mod Devices
mod Loader
mod Servers
mod Writes
mod Commands
mod Image
