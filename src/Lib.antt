-- ===== src/Lib.antt =====
-- egos: a teaching operating system for RISC-V boards, in three layers.
--
-- The earth layer (earth/) hides the machine: page_alloc.c hands out pages of memory, and cpu_mmu.c
-- gives each process its own address space. The grass layer (grass/) is the kernel: a table of 16
-- processes (process.c), a scheduler (scheduler.c), and system calls that pass messages between
-- processes (syscall.c); kernel.c takes every trap to one of them. The applications (apps/) are
-- servers and user programs; the file server keeps its files with the tree file system of
-- library/file. The kernel calls the earth layer through a table of functions: a context switch
-- calls the software TLB, which copies pages out of and into the one area where applications run.
--
-- The build that is modelled is the Makefile's default: the naive scheduler, the software TLB,
-- system calls by software interrupt.
--
-- Where what is:
-- - Prelude: lists as arrays, tests on numbers, and `Run`, the outcome of C code: a result, a
--   call of FATAL or ASSERT that stops the machine, or an access that C gives no meaning.
-- - Machine: the memory map and limits of library/egos.h; Machine.Memory: memory as a function
--   from addresses to bytes, with memcpy, memset and words of 32 bits.
-- - Bitmap: bit_set, bit_clear and bit_test of library/file/fs.c.
-- - Earth.PageAlloc: earth/page_alloc.c, its bit map and memory passed on as a state.
-- - Earth.Mmu: earth/cpu_mmu.c; app_pages is a function from a pid to its row of mappings. `Rows`
--   and `Isolation` are about soft_tlb_switch.
-- - Earth.PageTable: earth/cpu_vm.c, which other builds use; the tables lie in memory, one for
--   each pid.
-- - Earth.Timer: the halves of the registers in earth/cpu_timer.c, over a clock that runs on.
-- - Earth.Tty: tty_read and tty_intr of earth/dev_tty.c over the characters that arrive.
-- - Earth.Disk: earth/dev_disk.c and the reads and writes of earth/dev_sdcard.c.
-- - Grass.Process: grass/process.c, the table as a function from an index to a process.
-- - Grass.Scheduler: proc_yield of grass/scheduler.c, and the timer of earth/cpu_timer.c.
-- - Grass.Syscall: the kernel's side of grass/syscall.c; the request lies in memory at
--   SYSCALL_ARG. Grass.Syscall.User: the process's side, up to the interrupt.
-- - Grass.Trap: grass/kernel.c, with the registers that hardware and assembly leave as arguments.
-- - Grass.Invariant: the consistency of the table, through each operation on it.
-- - TreeDisk: library/file/file.c over any inode store that has the functions of
--   library/file/inode.h (TreeDisk.Store); blocks are functions from the index of a word to the
--   word. Layout has the snapshot and the levels, Alloc the allocation, Access the reads and
--   writes (Way, Walk and Growth follow a write down the file's tree), Create the making of a
--   file system, RamDisk the store of tools/mkfs.c, Device the store of library/file/disk.c on
--   the ROM. Tree says of every block of the disk what it is for, and follows a write through all
--   trees; Files is about sequences of writes and the file system as what its files hold.
-- - RwFs: library/file/fs.c over a device, with the exercises of library/file/fs_rw.c.
-- - Loader: library/elf/elf.c over a reader of blocks; Loader.App: load_app and elf_load.
-- - Apps.Shell: parse_request of apps/system/sys_shell.c, characters as their codes;
--   Apps.Shell.Batch: parse_batch_cmds, its static variables as a state.
-- - Apps.Servers: library/servers/servers.c; a server is the interface of two messages
--   (`Service`), which Apps.FileServer fills for apps/system/sys_file.c.
-- - Apps.ProcServer: apps/system/sys_proc.c, over the interfaces of the two servers that it asks,
--   with the calls of the kernel as calls of Grass.Process.
-- - Apps.DirServer: apps/system/sys_dir.c, a directory's text as a list of characters.
-- - Apps.Commands: cd, ls, cat, append, pwd and echo of apps/user over the interfaces of the two
--   servers; Paths has the working directory as a list of names, Appending the file server as an
--   interface with laws (`FileStore`), since the writes of the read-write build are exercises.
-- - DiskImage: mkfs of tools/mkfs.c, with the files of the host as an argument; Expected says from
--   the entries alone what the file system is to hold, Contents what the writes leave, Made that mkfs
--   makes them; Output is main, as the bytes that it writes.
-- - Tests: the theorems at concrete states.
--
-- Bounds. One round of a server's main loop is modelled, which never ends. Most other loops of the
-- sources run a fixed number of rounds, and so do the models: 16 for the table of processes, the
-- number of pages for the page map and for the rows of the software TLB. The loop of the directory
-- server has its unsigned count of positions. The count of levels has six rounds, and a number of 32 bits needs five; setup_freelist has a
-- round for each block of the disk, and each round takes one. The loops of the loader have a round
-- for each byte of the file and take a block in each; a batch of commands needs one call more than
-- it has commands, a read of the clock two rounds, and a text in a buffer has as many characters as
-- the buffer at most. A path's last slash is looked for once at each character. Addresses and block
-- numbers wrap at 2 ^ 32 where the sources can reach that.
--
-- An inode store that keeps what is written is a parameter (`IsDisk`): the file server's is a
-- device. Not modelled: assembly, device registers, printing, the multi-level scheduler (stubs in
-- the sources), the network's driver, the other applications, and library/uip, a copy of another
-- project. They are output, hardware, exercises left open, or programs above the parts that are
-- here.
pub mod Prelude
pub mod Machine
pub mod Bitmap
pub mod Earth
pub mod Grass
pub mod TreeDisk
pub mod RwFs
pub mod Loader
pub mod Apps
pub mod DiskImage
mod Tests
